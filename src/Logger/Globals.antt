-- ===== src/Logger/Globals.antt =====
-- The global logger: its functions do to the static variables what those of a module do to its
-- members, and the destructor of every `Logger` closes its stream.
use c_plus_plus.Prelude.{ℕ, none}
use c_plus_plus.Prelude.Chars.{Bytes}
use c_plus_plus.Logger.{
  Level, Outcome, Site, module_rotating_logger_init, module_rotating_file, module_trace,
  module_debug, module_info, module_error,
}

unfoldable pub global_rotating_logger_init : Bytes → ℕ → ℕ → Level → Site → Outcome Site
global_rotating_logger_init = module_rotating_logger_init

unfoldable pub global_trace : Bytes → Bytes → Site → Outcome Site
global_trace = module_trace

unfoldable pub global_debug : Bytes → Bytes → Site → Outcome Site
global_debug = module_debug

unfoldable pub global_info : Bytes → Bytes → Site → Outcome Site
global_info = module_info

unfoldable pub global_error : Bytes → Bytes → Site → Outcome Site
global_error = module_error

unfoldable pub global_rotating_file : Site → Outcome Site
global_rotating_file = module_rotating_file

-- `~Logger()`, on the global logger's state: that of the object destroyed is not used again.
unfoldable pub destroy_logger : Site → Site
destroy_logger s = record s { log = record s.log { m_of_logger = none } }
