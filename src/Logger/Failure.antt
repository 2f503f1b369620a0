-- ===== src/Logger/Failure.antt =====
-- Lines that are lost: a rotated file that is missing, and a stream that a destructor closed.
use c_plus_plus.Prelude.{
  ◌+◌, ◌%◌, ◌^◌, ◌<◌, ◌≡◌, refl, ap, ◌∙◌, Bool, true, false, none, List, [], ◌∷◌, arith, leb,
  if◌then◌else◌,
}
use c_plus_plus.Prelude.Chars.{Bytes}
use c_plus_plus.Logger.{
  remove_failed, Outcome, done, thrown, then_do, level_number, Site, remove_file, rotate_files,
  reopen, module_rotating_file, rotate_if_full, append_to, write_line,
}
use c_plus_plus.Logger.Files.{is_file}
use c_plus_plus.Logger.Globals.{
  global_trace, global_debug, global_info, global_error, destroy_logger,
}
use c_plus_plus.Logger.Window.{
  Severity, trace_line, debug_line, info_line, error_line, severity_number, Call, tag_of, cost_of,
}
use c_plus_plus.Logger.Refine.{module_call, written, module_call-test}
use mathlib.Core.Path.{subst⁻¹}

-- The current file is full, and `xx.1.log` is not there.
abbrev pub IsStuck : Site → Type 0
IsStuck s =
    (s.log.m_b_init ≡ true)
    × ((leb s.log.m_i_each_file_size s.log.m_udl_curr_write_file_size ≡ true)
        × (is_file (s.disk s.log.m_str_file_name 1) ≡ false))

abbrev closed : Site → Site
closed s = record s { log = record s.log { m_of_logger = none } }

written-IsStuck : (s : Site) (c : Call) → IsStuck s → written c s ≡ thrown remove_failed (closed s)
unfolding rotate_if_full module_rotating_file reopen rotate_files remove_file
written-IsStuck s c (b, (full, missing)) = rw (full, missing)

-- The call is made at or above the logger's level.
abbrev pub passes : Call → Site → Bool
passes c s = leb (level_number s.log.m_en_log_level) (severity_number c.severity)

-- Calls whose exceptions the program catches.
abbrev pub state_of : Outcome Site → Site
state_of (done s) = s
state_of (thrown f s) = s

abbrev pub caught : List Call → Site → Site
caught [] s = s
caught (c ∷ cs) s = caught cs (state_of (module_call c s))

module_call-IsStuck :
    (s : Site) (c : Call)
    → IsStuck s
    → module_call c s ≡ (if passes c s then thrown remove_failed (closed s) else done s)
module_call-IsStuck s c h =
    module_call-test c.severity c.prefix c.text s h.0
    ∙ ap (λ o. if passes c s then o else done s) (written-IsStuck s c h)

-- The level, the files and the rest stay.
abbrev Stays : Site → Site → Type 0
Stays s t = IsStuck t × ((t.disk ≡ s.disk) × (t.log.m_en_log_level ≡ s.log.m_en_log_level))

state_of-Stays : (s : Site) (c : Call) → IsStuck s → Stays s (state_of (module_call c s))
state_of-Stays s c h =
    subst⁻¹ (λ o. Stays s (state_of o)) (module_call-IsStuck s c h) (either (passes c s))
  where
    either : (b : Bool) → Stays s (state_of (if b then thrown remove_failed (closed s) else done s))
    either true = (h, (refl, refl))
    either false = (h, (refl, refl))

caught-Stays : (cs : List Call) (s : Site) → IsStuck s → Stays s (caught cs s)
caught-Stays [] s h = (h, (refl, refl))
caught-Stays (c ∷ cs) s h =
    let a = state_of-Stays s c h in
    let b = caught-Stays cs (state_of (module_call c s)) a.0 in
    (b.0, (b.1.0 ∙ a.1.0, b.1.1 ∙ a.1.1))

-- When the current file is full and the oldest rotated file is missing, every call at or above the
-- level throws, however many are made, and no file changes: the logger does not recover.
pub stuck_forever :
    (cs : List Call) (c : Call) (s : Site)
    → IsStuck s
    → passes c s ≡ true
    → (t : Site) × ((module_call c (caught cs s) ≡ thrown remove_failed t) × (t.disk ≡ s.disk))
stuck_forever cs c s h p =
    let a = caught-Stays cs s h in
    (
      closed (caught cs s),
      (
        module_call-IsStuck (caught cs s) c a.0
            ∙ ap
                (λ b. if b then thrown remove_failed (closed (caught cs s)) else done (caught cs s))
                (ap (λ l. leb (level_number l) (severity_number c.severity)) a.1.1 ∙ p),
        a.1.0,
      ),
    )

-- A call of `globalTrace`, `globalDebug`, `globalInfo` or `globalError`.
abbrev pub global_call : Call → Site → Outcome Site
global_call c s = elim c.severity [
  | trace_line ↦ global_trace c.prefix c.text s
  | debug_line ↦ global_debug c.prefix c.text s
  | info_line ↦ global_info c.prefix c.text s
  | error_line ↦ global_error c.prefix c.text s
]

global_call-module_call :
    (sev : Severity) (prefix text : Bytes) (s : Site)
    → global_call (record { severity = sev; prefix = prefix; text = text }) s
      ≡ module_call (record { severity = sev; prefix = prefix; text = text }) s
unfolding global_trace global_debug global_info global_error
global_call-module_call trace_line prefix text s = refl
global_call-module_call debug_line prefix text s = refl
global_call-module_call info_line prefix text s = refl
global_call-module_call error_line prefix text s = refl

global_call-passes :
    (c : Call) (s : Site)
    → s.log.m_b_init ≡ true
    → passes c s ≡ true
    → global_call c s ≡ written c s
global_call-passes c s b p =
    global_call-module_call c.severity c.prefix c.text s
    ∙ (module_call-test c.severity c.prefix c.text s b
        ∙ ap (λ x. if x then written c s else done s) p)

-- Once any `Logger` is destroyed, a line of the global logger at or above its level is lost while the
-- counted size is below the limit: the call returns and counts it, and no file changes.
pub destroy_loses :
    (c : Call) (s : Site)
    → s.log.m_b_init ≡ true
    → passes c s ≡ true
    → s.log.m_udl_curr_write_file_size < s.log.m_i_each_file_size
    → (t : Site) × ((global_call c (destroy_logger s) ≡ done t)
        × ((t.disk ≡ s.disk)
            × (t.log.m_udl_curr_write_file_size
                ≡ (s.log.m_udl_curr_write_file_size + cost_of c) % 2 ^ 64)))
unfolding destroy_logger rotate_if_full write_line append_to
destroy_loses c s b p h = (
  write_line (tag_of c.severity) c.prefix c.text (destroy_logger s),
  (
    global_call-passes c (destroy_logger s) b p
        ∙ ap
            (λ q.
              then_do
                (if q then module_rotating_file (destroy_logger s) else done (destroy_logger s))
                (λ t. done (write_line (tag_of c.severity) c.prefix c.text t)))
            (room h),
    (refl, refl),
  ),
)
  where
    room :
        s.log.m_udl_curr_write_file_size < s.log.m_i_each_file_size
        → leb s.log.m_i_each_file_size s.log.m_udl_curr_write_file_size ≡ false
    room h = ground arith
