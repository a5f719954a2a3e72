-- ===== src/Plugin/Action.antt =====
-- plugin/ReflectPluginAction.cpp: the name of the file that is written for an output file.
use reflect_c.Base.{
  ℕ, suc, ◌≡◌, refl, ap, inl, inr, Bool, true, ◌&&◌, not, Option, none, some, [], ◌∷◌, ◌++◌, ◌==◌,
  if◌then◌else◌, Bool-cases, length, take, codes,
}
use reflect_c.Format.{Text}

-- `find_last_of('.')`; `none` is `npos`.
unfoldable pub find_last_dot : Text → Option ℕ
find_last_dot [] = none
find_last_dot (c ∷ s) = elim (find_last_dot s) [
  | some i ↦ some (suc i)
  | none ↦ if c == 46 then some 0 else none
]

-- `substr(0, end)`
abbrev pub substr_to : Text → Option ℕ → Text
substr_to s none = s
substr_to s (some end_index) = take end_index s

unfoldable pub output_file : Text → Text
unfolding find_last_dot
output_file name = substr_to name (find_last_dot name) ++ codes ".reflection.dat"

-- The text has no dot.
unfoldable pub no_dot : Text → Bool
no_dot [] = true
no_dot (c ∷ s) = not (c == 46) && no_dot s

find_last_dot-none : (s : Text) → no_dot s ≡ true → find_last_dot s ≡ none
unfolding find_last_dot no_dot
find_last_dot-none [] h = refl
find_last_dot-none (c ∷ s) h = elim (Bool-cases (c == 46)) [
  | inl dot ↦ let no = rw (no_dot, dot) at h in cc no
  | inr other ↦
      let tail = rw (no_dot, other) at h in
      rw (find_last_dot, find_last_dot-none s tail, other) refl
]

find_last_dot-stem :
    (stem extension : Text)
    → no_dot extension ≡ true
    → find_last_dot (stem ++ 46 ∷ extension) ≡ some (length stem)
unfolding find_last_dot
find_last_dot-stem [] extension h = rw (find_last_dot, find_last_dot-none extension h) refl
find_last_dot-stem (c ∷ stem) extension h =
    rw (find_last_dot, find_last_dot-stem stem extension h) refl

take-stem : (stem s : Text) → take (length stem) (stem ++ s) ≡ stem
take-stem [] s = refl
take-stem (c ∷ stem) s = ap (λ t. c ∷ t) (take-stem stem s)

-- For a name that ends in a dot and an extension without dots, the file that is written has what
-- stands before that dot and `.reflection.dat` as its name; for one without dots it is the name
-- and `.reflection.dat`.
pub output_file-stem :
    (stem extension : Text)
    → no_dot extension ≡ true
    → (output_file (stem ++ 46 ∷ extension) ≡ stem ++ codes ".reflection.dat")
      × (output_file extension ≡ extension ++ codes ".reflection.dat")
unfolding output_file
output_file-stem stem extension h = (
  rw (output_file, find_last_dot-stem stem extension h)
      (ap (λ s. s ++ codes ".reflection.dat") (take-stem stem (46 ∷ extension))),
  rw (output_file, find_last_dot-none extension h) refl,
)
