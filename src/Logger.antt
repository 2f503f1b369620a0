-- ===== src/Logger.antt =====
-- logger/Logger.hpp, as it is compiled (C_STYLE): the logger of a module, which writes lines to a
-- file and rotates it when it is full, and the global one, whose functions have the same bodies.
pub mod Files
pub mod Globals
pub mod Rotation
pub mod Window
pub mod Ready
pub mod Writing
pub mod Refine
pub mod Creation
pub mod Init
pub mod Bounds
pub mod Failure
pub mod Tests
use c_plus_plus.Prelude.{
  ℕ, zero, suc, ◌+◌, ◌-◌, ◌/◌, ◌%◌, ◌^◌, ◌<◌, ap, Bool, true, false, not, Option, none, some, [],
  ◌∷◌, ◌++◌, ltb, leb, ◌==◌, if◌then◌else◌, length, set, take,
}
use c_plus_plus.Prelude.Chars.{Bytes, codes}
use c_plus_plus.Prelude.Find.{take_while}
use Files.{Disk, is_file, put, content, create}

-- `LOG_LEVEL_E` and its numbers.
pub data Level : Type 0 where
  trace debug info : Level

abbrev pub level_number : Level → ℕ
level_number trace = 0
level_number debug = 1
level_number info = 2

-- The messages of the `runtime_error`s.
pub data Fault : Type 0 where
  file_size rotating_file_num not_initialised remove_failed rename_failed : Fault

-- A call that throws leaves what it did until then.
pub data Outcome (S : Type 0) : Type 0 where
  done : S → Outcome S
  thrown : Fault → S → Outcome S

abbrev pub then_do : {S : Type 0} → Outcome S → (S → Outcome S) → Outcome S
then_do (done s) next = next s
then_do (thrown f s) next = thrown f s

-- The members of a `Logger`, or the static variables of the global one. The stream is the file that
-- it has open.
pub record Logger : Type 0 where
  pub m_of_logger : Option (Bytes × ℕ)
  pub m_str_file_name : Bytes
  pub m_i_each_file_size : ℕ
  pub m_i_rotating_file_num : ℕ
  pub m_en_log_level : Level
  pub m_udl_curr_write_file_size : ℕ
  pub m_b_init : Bool

-- A logger and the files.
pub record Site : Type 0 where
  pub log : Logger
  pub disk : Disk

-- `Logger()`; what it leaves unset is 0 or empty here, and is not read before it is set.
abbrev pub new_logger : Logger
new_logger = record {
  m_of_logger = none;
  m_str_file_name = [];
  m_i_each_file_size = 0;
  m_i_rotating_file_num = 0;
  m_en_log_level = trace;
  m_udl_curr_write_file_size = 0;
  m_b_init = false;
}

-- The loop that creates the files `i`, `i + 1`, ..., `count` of them.
unfoldable pub create_files : Bytes → ℕ → ℕ → Disk → Disk
create_files name zero i d = d
create_files name (suc count) i d = create_files name count (i + 1) (create d name i)

-- The file that is written is opened at its end, and its size is read with `tellp`.
unfoldable pub open_current : Bytes → Site → Site
open_current name s = record {
  log = record s.log {
    m_of_logger = some (name, 0);
    m_udl_curr_write_file_size = length (content (create s.disk name 0 name 0));
  };
  disk = create s.disk name 0;
}

unfoldable pub module_rotating_logger_init : Bytes → ℕ → ℕ → Level → Site → Outcome Site
module_rotating_logger_init name each_size file_num level s =
    if ltb each_size 1
    then thrown file_size s
    else if ltb file_num 2
    then thrown rotating_file_num s
    else if s.log.m_b_init
    then done s
    else done (record opened {
      log = record opened.log {
        m_str_file_name = name;
        m_i_each_file_size = each_size;
        m_i_rotating_file_num = file_num;
        m_en_log_level = level;
        m_b_init = true;
      };
    })
  where
    opened : Site
    opened = open_current name (record s { disk = create_files name (file_num - 1) 1 s.disk })

unfoldable pub remove_file : Bytes → ℕ → Disk → Outcome Disk
remove_file name i d =
    if is_file (d name i) then done (put d name i none) else thrown remove_failed d

unfoldable pub rename_file : Bytes → ℕ → ℕ → Disk → Outcome Disk
rename_file name old new d =
    if is_file (d name old)
    then done (put (put d name new (d name old)) name old none)
    else thrown rename_failed d

-- The loop that renames the files `i`, `i + 1`, ..., `count` of them, each to the number before.
unfoldable pub shift_files : Bytes → ℕ → ℕ → Disk → Outcome Disk
shift_files name zero i d = done d
shift_files name (suc count) i d =
    then_do (rename_file name i (i - 1) d) (shift_files name count (i + 1))

-- The files that `moduleRotatingFile` removes and renames.
unfoldable pub rotate_files : Bytes → ℕ → Disk → Outcome Disk
rotate_files name file_num d =
    then_do (then_do (remove_file name 1 d) (shift_files name (file_num - 2) 2))
      (rename_file name 0 (file_num - 1))

unfoldable pub reopen : Site → Outcome Disk → Outcome Site
reopen s (done d) = done (open_current s.log.m_str_file_name (record s { disk = d }))
reopen s (thrown f d) = thrown f (record { log = record s.log { m_of_logger = none }; disk = d })

unfoldable pub module_rotating_file : Site → Outcome Site
module_rotating_file s =
    reopen s (rotate_files s.log.m_str_file_name s.log.m_i_rotating_file_num s.disk)

unfoldable pub rotate_if_full : Site → Outcome Site
rotate_if_full s =
    if leb s.log.m_i_each_file_size s.log.m_udl_curr_write_file_size
    then module_rotating_file s
    else done s

-- What `vsnprintf` leaves in the buffer of `LOG_WRITE_BUF_SIZE` bytes, read as a C string: `text` is
-- the formatted message.
unfoldable pub buffer : Bytes → Bytes
buffer text = take_while (λ c. not (c == 0)) (take 999 text)

-- `<<` on a stream that has no file open writes nothing.
unfoldable pub append_to : Option (Bytes × ℕ) → Bytes → Disk → Disk
append_to none line d = d
append_to (some (name, i)) line d = put d name i (some (content (d name i) ++ line))

-- One line, and its size as the code counts it; `tag` is " [T] " or such.
unfoldable pub write_line : Bytes → Bytes → Bytes → Site → Site
write_line tag prefix text s = record {
  log = record s.log {
    m_udl_curr_write_file_size =
        (s.log.m_udl_curr_write_file_size + (length prefix + 5 + length (buffer text) + 2))
        % 2 ^ 64;
  };
  disk = append_to s.log.m_of_logger (prefix ++ tag ++ buffer text ++ b'\n' ∷ []) s.disk;
}

unfoldable pub module_trace : Bytes → Bytes → Site → Outcome Site
module_trace prefix text s =
    if not s.log.m_b_init
    then thrown not_initialised s
    else if 0 == level_number s.log.m_en_log_level
    then then_do (rotate_if_full s) (λ t. done (write_line (codes " [T] ") prefix text t))
    else done s

unfoldable pub module_debug : Bytes → Bytes → Site → Outcome Site
module_debug prefix text s =
    if not s.log.m_b_init
    then thrown not_initialised s
    else if leb (level_number s.log.m_en_log_level) 1
    then then_do (rotate_if_full s) (λ t. done (write_line (codes " [D] ") prefix text t))
    else done s

unfoldable pub module_info : Bytes → Bytes → Site → Outcome Site
module_info prefix text s =
    if not s.log.m_b_init
    then thrown not_initialised s
    else if leb (level_number s.log.m_en_log_level) 2
    then then_do (rotate_if_full s) (λ t. done (write_line (codes " [I] ") prefix text t))
    else done s

unfoldable pub module_error : Bytes → Bytes → Site → Outcome Site
module_error prefix text s =
    if not s.log.m_b_init
    then thrown not_initialised s
    else then_do (rotate_if_full s) (λ t. done (write_line (codes " [E] ") prefix text t))
