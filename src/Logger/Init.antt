-- ===== src/Logger/Init.antt =====
-- The init function: what it refuses, and the logger and files that it leaves.
use c_plus_plus.Prelude.{
  ℕ, zero, suc, ◌-◌, ◌≤◌, ◌<◌, ◌≡◌, refl, ap, ap₂, ◌∙◌, ◌⊎◌, inl, inr, Bool, true, false, ◌||◌,
  some, List, arith, ltb, if◌then◌else◌, Bool-ne, length,
}
use c_plus_plus.Prelude.Chars.{Bytes}
use c_plus_plus.Logger.{
  Level, Fault, file_size, rotating_file_num, not_initialised, Outcome, done, thrown, then_do, Site,
  create_files, open_current, module_rotating_logger_init, module_trace, module_debug, module_info,
  module_error,
}
use c_plus_plus.Logger.Files.{Disk, content, create}
use c_plus_plus.Logger.Rotation.{HasFiles}
use c_plus_plus.Logger.Window.{
  Severity, trace_line, debug_line, info_line, error_line, Call, Window, logged_all,
}
use c_plus_plus.Logger.Ready.{files, window_of, IsReady}
use c_plus_plus.Logger.Refine.{module_call, module_calls, module_calls_refine}
use c_plus_plus.Logger.Creation.{
  create-there_after, create-content, create-is_file, create_files-content, create_files-HasFiles,
  files-content,
}

-- What the files of a base name hold before the logger is initialised; a file that is not there is
-- created empty.
abbrev pub initial_window : Bytes → ℕ → Disk → Window
initial_window name file_num d = record {
  old = files d name (file_num - 1) 1;
  current = content (d name 0);
  counted = length (content (d name 0));
}

abbrev set_up : Bytes → ℕ → ℕ → Level → Site → Site
set_up name each_size file_num level s = record {
  log = record {
    m_of_logger = some (name, 0);
    m_str_file_name = name;
    m_i_each_file_size = each_size;
    m_i_rotating_file_num = file_num;
    m_en_log_level = level;
    m_udl_curr_write_file_size =
        length (content (create (create_files name (file_num - 1) 1 s.disk) name 0 name 0));
    m_b_init = true;
  };
  disk = create (create_files name (file_num - 1) 1 s.disk) name 0;
}

init-set_up :
    (name : Bytes) (each_size file_num : ℕ) (level : Level) (s : Site)
    → 1 ≤ each_size
    → 2 ≤ file_num
    → s.log.m_b_init ≡ false
    → module_rotating_logger_init name each_size file_num level s
      ≡ done (set_up name each_size file_num level s)
unfolding module_rotating_logger_init open_current
init-set_up name each_size file_num level s h h' b =
    rw (not_less each_size 1 h, not_less file_num 2 h', b)
  where
    not_less : (a k : ℕ) → k ≤ a → ltb a k ≡ false
    not_less a k l = ground arith

set_up-IsReady :
    (name : Bytes) (each_size file_num : ℕ) (level : Level) (s : Site)
    → 2 ≤ file_num
    → IsReady (set_up name each_size file_num level s)
set_up-IsReady name each_size file_num level s h = (refl, (h, (refl, there)))
  where
    d : Disk
    d = create_files name (file_num - 1) 1 s.disk

    there : HasFiles (create d name 0) name 0 file_num
    there zero a b = create-there_after d name 0
    there (suc j) a b =
        create-is_file d name 0 (suc j)
          (create_files-HasFiles (file_num - 1) 1 s.disk name (suc j) (omega arith) (omega arith))

set_up-window :
    (name : Bytes) (each_size file_num : ℕ) (level : Level) (s : Site)
    → window_of (set_up name each_size file_num level s) ≡ initial_window name file_num s.disk
set_up-window name each_size file_num level s =
    ap₂ (λ l c. record { old = l; current = c; counted = length c })
      (files-content (create d name 0) s.disk name (file_num - 1) 1 same) (same 0)
  where
    d : Disk
    d = create_files name (file_num - 1) 1 s.disk

    same : (j : ℕ) → content (create d name 0 name j) ≡ content (s.disk name j)
    same j = create-content d name 0 j ∙ create_files-content (file_num - 1) 1 s.disk name j

-- A logger that is initialised with a file size of at least 1 and at least 2 files returns from any
-- calls after that, and its files are what the window promises, from those of its base name on: each
-- line at or above the level, in order, in the current file, which becomes the newest of the rotated
-- files, and the oldest of these goes, when the counted size has reached the file size.
pub init_calls_refine :
    (name : Bytes) (each_size file_num : ℕ) (level : Level) (cs : List Call) (s : Site)
    → 1 ≤ each_size
    → 2 ≤ file_num
    → s.log.m_b_init ≡ false
    → (t : Site) × ((then_do
            (module_rotating_logger_init name each_size file_num level s)
            (module_calls cs)
          ≡ done t)
        × (IsReady t
            × (window_of t ≡ logged_all each_size level cs (initial_window name file_num s.disk))))
init_calls_refine name each_size file_num level cs s h h' b =
    let t = set_up name each_size file_num level s in
    let r = module_calls_refine cs t (set_up-IsReady name each_size file_num level s h') in
    (
      r.0,
      (
        ap (λ o. then_do o (module_calls cs)) (init-set_up name each_size file_num level s h h' b)
            ∙ r.1.0,
        (
          r.1.1.0,
          r.1.1.1.1
              ∙ ap (logged_all each_size level cs) (set_up-window name each_size file_num level s),
        ),
      ),
    )

module_call-not_initialised :
    (sev : Severity) (prefix text : Bytes) (s : Site)
    → s.log.m_b_init ≡ false
    → module_call (record { severity = sev; prefix = prefix; text = text }) s
      ≡ thrown not_initialised s
unfolding module_trace module_debug module_info module_error
module_call-not_initialised trace_line prefix text s b = rw b
module_call-not_initialised debug_line prefix text s b = rw b
module_call-not_initialised info_line prefix text s b = rw b
module_call-not_initialised error_line prefix text s b = rw b

-- The init function throws for a file size of 0 and for less than 2 files, and leaves the logger and
-- the files as they were: when it was not initialised before, each of the four functions that write
-- throws after that, and writes nothing.
pub init_refuses :
    (name : Bytes) (each_size file_num : ℕ) (level : Level) (c : Call) (s : Site)
    → (each_size < 1) ⊎ (file_num < 2)
    → s.log.m_b_init ≡ false
    → ((f : Fault) × (module_rotating_logger_init name each_size file_num level s ≡ thrown f s))
      × (module_call c s ≡ thrown not_initialised s)
unfolding module_rotating_logger_init
init_refuses name each_size file_num level c s h b = (
  refused _ (ltb each_size 1) (ltb file_num 2) (tested h),
  module_call-not_initialised c.severity c.prefix c.text s b,
)
  where
    tested : (each_size < 1) ⊎ (file_num < 2) → ltb each_size 1 || ltb file_num 2 ≡ true
    tested (inl h) = ground arith
    tested (inr h) = ground arith

    refused :
        (o : Outcome Site) (x y : Bool)
        → x || y ≡ true
        → (f : Fault) × ((if x
              then thrown file_size s
              else if y
              then thrown rotating_file_num s
              else o)
            ≡ thrown f s)
    refused o true y h = (file_size, refl)
    refused o false true h = (rotating_file_num, refl)
    refused o false false h = Bool-ne h refl
