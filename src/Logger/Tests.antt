-- ===== src/Logger/Tests.antt =====
-- Loggers run on concrete lines, and the witnesses of their theorems.
use c_plus_plus.Prelude.{◌+◌, ◌%◌, ◌^◌, ◌≡◌, refl, inr, true, none, some, List, [], ◌∷◌, arith}
use c_plus_plus.Prelude.Chars.{Bytes, codes}
use c_plus_plus.Prelude.Find.{take_while}
use c_plus_plus.Logger.{
  debug, Fault, remove_failed, not_initialised, done, thrown, then_do, Site, new_logger,
  module_rotating_logger_init, buffer,
}
use c_plus_plus.Logger.Files.{Disk}
use c_plus_plus.Logger.Globals.{destroy_logger}
use c_plus_plus.Logger.Window.{
  Severity, trace_line, debug_line, info_line, error_line, Call, logged_all, cost_of,
}
use c_plus_plus.Logger.Ready.{window_of, IsReady}
use c_plus_plus.Logger.Refine.{module_call, module_calls}
use c_plus_plus.Logger.Init.{initial_window, init_calls_refine, init_refuses}
use c_plus_plus.Logger.Failure.{caught, global_call, stuck_forever, destroy_loses}

abbrev no_files : Disk
no_files name i = none

abbrev fresh : Site
fresh = record { log = new_logger; disk = no_files }

abbrev name : Bytes
name = codes "app"

abbrev line : Severity → Call
line sev = record { severity = sev; prefix = codes "[x]"; text = codes "hello" }

abbrev lines : List Call
lines = line info_line ∷ line trace_line ∷ line error_line ∷ line debug_line ∷ line error_line ∷ []

-- With a file size of 20, two lines fill a file; the line below the level is left out.
rolls : logged_all 20 debug lines (initial_window name 2 no_files) ≡ record {
  old = codes "[x] [I] hello\n[x] [E] hello\n" ∷ [];
  current = codes "[x] [D] hello\n[x] [E] hello\n";
  counted = 30;
}
unfolding buffer take_while
rolls = refl

init_calls_refine_example :
    (t : Site) × ((then_do (module_rotating_logger_init name 20 3 debug fresh) (module_calls lines)
        ≡ done t)
      × (IsReady t × (window_of t ≡ logged_all 20 debug lines (initial_window name 3 no_files))))
init_calls_refine_example =
    init_calls_refine name 20 3 debug lines fresh (omega arith) (omega arith) refl

refused_size :
    ((f : Fault) × (module_rotating_logger_init name 20 1 debug fresh ≡ thrown f fresh))
    × (module_call (line error_line) fresh ≡ thrown not_initialised fresh)
refused_size = init_refuses name 20 1 debug (line error_line) fresh (inr (omega arith)) refl

-- A logger with its files there, and the last of them just opened.
abbrev one_file : Disk
one_file n i = some []

abbrev opened : Site
opened = record {
  log = record {
    m_of_logger = some (name, 0);
    m_str_file_name = name;
    m_i_each_file_size = 20;
    m_i_rotating_file_num = 3;
    m_en_log_level = debug;
    m_udl_curr_write_file_size = 0;
    m_b_init = true;
  };
  disk = one_file;
}

abbrev missing : Site
missing = record opened {
  log = record opened.log { m_udl_curr_write_file_size = 20 };
  disk = no_files;
}

stuck_forever_example :
    (t : Site) × ((module_call (line info_line) (caught lines missing) ≡ thrown remove_failed t)
      × (t.disk ≡ missing.disk))
stuck_forever_example = stuck_forever lines (line info_line) missing (refl, (refl, refl)) refl

destroy_loses_example :
    (t : Site) × ((global_call (line error_line) (destroy_logger opened) ≡ done t)
      × ((t.disk ≡ opened.disk)
          × (t.log.m_udl_curr_write_file_size ≡ (0 + cost_of (line error_line)) % 2 ^ 64)))
destroy_loses_example = destroy_loses (line error_line) opened refl refl (omega arith)
