-- ===== src/Logger/Refine.antt =====
-- The functions of a logger that is ready do what the window of its files promises.
use c_plus_plus.Prelude.{
  ℕ, ◌≡◌, refl, ap, ap₂, ◌∙◌, true, List, [], ◌∷◌, arith, leb, ◌==◌, if◌then◌else◌,
}
use c_plus_plus.Prelude.Chars.{Bytes}
use c_plus_plus.Logger.{
  Level, trace, debug, info, Outcome, done, then_do, level_number, Site, rotate_if_full, write_line,
  module_trace, module_debug, module_info, module_error,
}
use c_plus_plus.Logger.Window.{
  Severity, trace_line, debug_line, info_line, error_line, severity_number, Call, tag_of,
  roll_if_full, extended, logged, logged_all,
}
use c_plus_plus.Logger.Ready.{window_of, IsReady}
use mathlib.Core.Path.{subst⁻¹}
use c_plus_plus.Logger.Writing.{Becomes, if-Becomes, Keeps-trans, line-Becomes}

-- A call of `moduleTrace`, `moduleDebug`, `moduleInfo` or `moduleError`.
abbrev pub module_call : Call → Site → Outcome Site
module_call c s = elim c.severity [
  | trace_line ↦ module_trace c.prefix c.text s
  | debug_line ↦ module_debug c.prefix c.text s
  | info_line ↦ module_info c.prefix c.text s
  | error_line ↦ module_error c.prefix c.text s
]

abbrev pub written : Call → Site → Outcome Site
written c s =
    then_do (rotate_if_full s) (λ t. done (write_line (tag_of c.severity) c.prefix c.text t))

-- The four functions test the level in the same way.
pub module_call-test :
    (sev : Severity) (prefix text : Bytes) (s : Site)
    → s.log.m_b_init ≡ true
    → module_call (record { severity = sev; prefix = prefix; text = text }) s ≡ (
        if leb (level_number s.log.m_en_log_level) (severity_number sev)
        then written (record { severity = sev; prefix = prefix; text = text }) s
        else done s)
unfolding module_trace module_debug module_info module_error
module_call-test trace_line prefix text s b = rw (b, zero_test (level_number s.log.m_en_log_level))
  where
    zero_test : (n : ℕ) → (0 == n) ≡ leb n 0
    zero_test n = ground arith
module_call-test debug_line prefix text s b = rw b
module_call-test info_line prefix text s b = rw b
module_call-test error_line prefix text s b = rw (b, all_pass s.log.m_en_log_level)
  where
    all_pass : (l : Level) → leb (level_number l) 3 ≡ true
    all_pass trace = refl
    all_pass debug = refl
    all_pass info = refl

-- One call returns, and the files show what is promised.
pub module_call-Becomes :
    (s : Site) (c : Call)
    → IsReady s
    → Becomes s
        (module_call c s)
        (logged s.log.m_i_each_file_size s.log.m_en_log_level c (window_of s))
module_call-Becomes s c r =
    subst⁻¹
      (λ o. Becomes s o (logged s.log.m_i_each_file_size s.log.m_en_log_level c (window_of s)))
      (module_call-test c.severity c.prefix c.text s r.0)
      (if-Becomes (leb (level_number s.log.m_en_log_level) (severity_number c.severity)) s
        (written c s) (extended c (roll_if_full s.log.m_i_each_file_size (window_of s))) r
        (line-Becomes s c r))

-- Calls one after the other, up to one that throws.
abbrev pub module_calls : List Call → Site → Outcome Site
module_calls [] s = done s
module_calls (c ∷ cs) s = then_do (module_call c s) (module_calls cs)

-- A logger that is ready returns from any calls, and its files are those that the window promises:
-- each line at or above its level, in order, in the current file, which becomes the newest of the
-- rotated ones, and the oldest of those goes, when the counted size has reached the limit.
pub module_calls_refine :
    (cs : List Call) (s : Site)
    → IsReady s
    → Becomes s
        (module_calls cs s)
        (logged_all s.log.m_i_each_file_size s.log.m_en_log_level cs (window_of s))
module_calls_refine [] s r = (s, (refl, (r, ((refl, (refl, (refl, refl))), refl))))
module_calls_refine (c ∷ cs) s r =
    let a = module_call-Becomes s c r in
    let b = module_calls_refine cs a.0 a.1.1.0 in
    (
      b.0,
      (
        ap (λ o. then_do o (module_calls cs)) a.1.0 ∙ b.1.0,
        (
          b.1.1.0,
          (
            Keeps-trans s a.0 b.0 a.1.1.1.0 b.1.1.1.0,
            b.1.1.1.1
                ∙ (ap₂ (λ l v. logged_all l v cs (window_of a.0)) a.1.1.1.0.0 a.1.1.1.0.1.0
                    ∙ ap (logged_all s.log.m_i_each_file_size s.log.m_en_log_level cs) a.1.1.1.1),
          ),
        ),
      ),
    )
