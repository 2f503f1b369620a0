-- ===== src/Logger/Writing.antt =====
-- What a rotation and a line do to a logger that is ready.
use c_plus_plus.Prelude.{
  ℕ, zero, suc, ◌+◌, ◌-◌, ◌%◌, ◌^◌, ◌≤◌, ◌≡◌, refl, sym, ap, ap₂, ◌∙◌, Bool, true, false, Option,
  some, List, [], ◌∷◌, ◌++◌, arith, leb, if◌then◌else◌, drop,
}
use c_plus_plus.Prelude.Chars.{Bytes}
use c_plus_plus.Logger.{
  Outcome, done, then_do, Site, open_current, rotate_files, reopen, module_rotating_file,
  rotate_if_full, append_to, write_line,
}
use c_plus_plus.Logger.Files.{Disk, is_file, put, content, create, put-same, put-other}
use c_plus_plus.Logger.Rotation.{HasFiles, Rotates, rotate_files-Rotates}
use c_plus_plus.Logger.Window.{
  Call, Window, tag_of, line_of, cost_of, rolled, roll_if_full, extended,
}
use c_plus_plus.Logger.Ready.{
  files, window_of, IsReady, Keeps, files-same, created-same, created-HasFiles, created-files,
}
use mathlib.Core.Path.{subst, subst⁻¹}

-- The call returns, the logger is ready again, and its window is `w`.
abbrev pub Becomes : Site → Outcome Site → Window → Type 0
Becomes s o w = (t : Site) × ((o ≡ done t) × (IsReady t × (Keeps s t × (window_of t ≡ w))))

reopened : Site → Disk → Site
reopened s e = open_current s.log.m_str_file_name (record s { disk = e })

rotating-Becomes :
    (s : Site) (k : ℕ)
    → s.log.m_i_rotating_file_num ≡ suc (suc k)
    → IsReady s
    → Becomes s (module_rotating_file s) (rolled (window_of s))
unfolding module_rotating_file reopen open_current reopened
rotating-Becomes s k q (b, (two, (stream, h))) =
    let h' = subst (HasFiles s.disk s.log.m_str_file_name 0) q h in
    let r = rotate_files-Rotates k s.disk s.log.m_str_file_name h' in
    (
      reopened s r.0,
      (
        ap (reopen s) (ap (λ n. rotate_files s.log.m_str_file_name n s.disk) q ∙ r.1.0),
        (
          (
            b,
            (
              two,
              (
                refl,
                subst⁻¹ (HasFiles (create r.0 s.log.m_str_file_name 0) s.log.m_str_file_name 0) q
                    (created-HasFiles s.disk r.0 s.log.m_str_file_name k h' r.1.1),
              ),
            ),
          ),
          ((refl, (refl, (refl, refl))), shown r.0 h' r.1.1),
        ),
      ),
    )
  where
    name : Bytes
    name = s.log.m_str_file_name

    number : s.log.m_i_rotating_file_num - 1 ≡ suc k
    number = omega (arith, q)

    shown :
        (e : Disk)
        → HasFiles s.disk name 0 (suc (suc k))
        → Rotates s.disk name k e
        → window_of (reopened s e) ≡ rolled (window_of s)
    shown e h' r = rw (created-same s.disk e name k h' r) (
        ap (λ l. record { old = l; current = []; counted = 0 })
          (ap (λ n. files (create e name 0) name n 1) number
            ∙ (created-files s.disk e name k h' r
                ∙ ap (λ n. drop 1 (files s.disk name n 1) ++ content (s.disk name 0) ∷ [])
                    (sym number))))

-- A test that leaves the logger as it is when it fails.
pub if-Becomes :
    (b : Bool) (s : Site) (o : Outcome Site) (w : Window)
    → IsReady s
    → Becomes s o w
    → Becomes s (if b then o else done s) (if b then w else window_of s)
if-Becomes true s o w r h = h
if-Becomes false s o w r h = (s, (refl, (r, ((refl, (refl, (refl, refl))), refl))))

two_more : (n : ℕ) → 2 ≤ n → n ≡ suc (suc (n - 2))
two_more n h = omega arith

rotate_if_full-Becomes :
    (s : Site)
    → IsReady s
    → Becomes s (rotate_if_full s) (roll_if_full s.log.m_i_each_file_size (window_of s))
unfolding rotate_if_full
rotate_if_full-Becomes s r =
    if-Becomes (leb s.log.m_i_each_file_size s.log.m_udl_curr_write_file_size) s
      (module_rotating_file s) (rolled (window_of s)) r
      (rotating-Becomes s (s.log.m_i_rotating_file_num - 2)
        (two_more s.log.m_i_rotating_file_num r.1.0) r)

write_line-Becomes :
    (s : Site) (c : Call)
    → IsReady s
    → Becomes s (done (write_line (tag_of c.severity) c.prefix c.text s)) (extended c (window_of s))
unfolding write_line append_to
write_line-Becomes s c (b, (two, (stream, h))) = (
  write_line (tag_of c.severity) c.prefix c.text s,
  (
    refl,
    (
      (
        b,
        (two, (stream, subst⁻¹ (λ d. HasFiles d name 0 s.log.m_i_rotating_file_num) wrote there)),
      ),
      ((refl, (refl, (refl, refl))), shown),
    ),
  ),
)
  where
    name : Bytes
    name = s.log.m_str_file_name

    grown : Option Bytes
    grown = some (content (s.disk name 0) ++ line_of c)

    wrote : append_to s.log.m_of_logger (line_of c) s.disk ≡ put s.disk name 0 grown
    wrote = ap (λ f. append_to f (line_of c) s.disk) stream

    there : HasFiles (put s.disk name 0 grown) name 0 s.log.m_i_rotating_file_num
    there zero a b = ap is_file (put-same s.disk name 0 grown)
    there (suc j) a b =
        ap is_file (put-other s.disk name 0 (suc j) grown (λ q. omega arith)) ∙ h (suc j) a b

    mk : List Bytes → Bytes → Window
    mk l x = record {
      old = l;
      current = x;
      counted = (s.log.m_udl_curr_write_file_size + cost_of c) % 2 ^ 64;
    }

    shown : window_of (write_line (tag_of c.severity) c.prefix c.text s) ≡ extended c (window_of s)
    shown =
        ap (λ d. mk (files d name (s.log.m_i_rotating_file_num - 1) 1) (content (d name 0))) wrote
        ∙ ap₂ mk
            (files-same (put s.disk name 0 grown) s.disk name (s.log.m_i_rotating_file_num - 1) 1
              (λ j a b. put-other s.disk name 0 j grown (λ q. omega arith)))
            (ap content (put-same s.disk name 0 grown))

pub Keeps-trans : (s t u : Site) → Keeps s t → Keeps t u → Keeps s u
Keeps-trans s t u h k = (k.0 ∙ h.0, (k.1.0 ∙ h.1.0, (k.1.1.0 ∙ h.1.1.0, k.1.1.1 ∙ h.1.1.1)))

-- A rotation when it is due, then the line.
pub line-Becomes :
    (s : Site) (c : Call)
    → IsReady s
    → Becomes s
        (then_do (rotate_if_full s) (λ t. done (write_line (tag_of c.severity) c.prefix c.text t)))
        (extended c (roll_if_full s.log.m_i_each_file_size (window_of s)))
line-Becomes s c r =
    let a = rotate_if_full-Becomes s r in
    let b = write_line-Becomes a.0 c a.1.1.0 in
    (
      b.0,
      (
        ap (λ o. then_do o (λ t. done (write_line (tag_of c.severity) c.prefix c.text t))) a.1.0
            ∙ b.1.0,
        (
          b.1.1.0,
          (Keeps-trans s a.0 b.0 a.1.1.1.0 b.1.1.1.0, b.1.1.1.1 ∙ ap (extended c) a.1.1.1.1),
        ),
      ),
    )
