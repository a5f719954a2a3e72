-- ===== src/Plugin/Serializer/Lines.antt =====
-- One line of a .reflection.dat file is one command.
use mathlib.Core.Option
use reflect_c.Base.{
  ℕ, suc, ◌+◌, ◌≤◌, ◌≡◌, refl, sym, ap, ◌∙◌, inl, inr, Bool, true, false, ◌&&◌, not, some, List, [],
  ◌∷◌, ◌++◌, append_assoc, append-nil, arith, ◌==◌, Bool-cases, ◌===◌, IsIn, codes, decimal, first,
  later,
}
use Prim.Native.String.{String}
use reflect_c.Format.{Text}
use reflect_c.Plugin.Int.{ℤ, pos, negsuc, signed_decimal}
use reflect_c.Plugin.Types.{base, struct, union, enum}
use reflect_c.Plugin.Serializer.{line, bool_name}
use reflect_c.Plugin.Serializer.Commands as Commands
use reflect_c.Plugin.Serializer.Commands.{
  Command, read_command, split_word, add_command, read_lines, read_text, alias_commands,
  type_commands, tag_of, field_commands, enumerator_commands, base_commands, record_commands,
  enum_commands, file_commands, struct_or_union,
}
use reflect_c.Plugin.Serializer.Numbers.{
  decimal_from-digits, read_number-decimal, read_integer-signed_decimal,
}

-- The text has no line break.
unfoldable pub one_line : Text → Bool
one_line [] = true
one_line (c ∷ s) = not (c == 10) && one_line s

abbrev pub OneLine : Text → Type 0
OneLine s = one_line s ≡ true

-- The text stands for these commands, whatever follows.
pub record Reads (text : Text) (cs : List Command) : Type 0 where
  pub reads :
      (rest : Text) (ds : List Command)
      → read_text rest ≡ some ds
      → read_text (text ++ rest) ≡ some (cs ++ ds)

pub Reads-nil : Reads [] []
Reads-nil = record { reads = λ rest ds h. h }

pub Reads-append :
    {s t : Text} {cs ds : List Command} → Reads s cs → Reads t ds → Reads (s ++ t) (cs ++ ds)
Reads-append {s} {t} {cs} {ds} h k = record {
  reads = λ rest es e.
      ap read_text (append_assoc s t rest)
      ∙ h.reads (t ++ rest) (ds ++ es) (k.reads rest es e)
      ∙ ap some (sym (append_assoc cs ds es));
}

pub read_text-Reads : (text : Text) (cs : List Command) → Reads text cs → read_text text ≡ some cs
unfolding read_lines ◌===◌
read_text-Reads text cs h =
    ap read_text (sym (append-nil text)) ∙ h.reads [] [] refl ∙ ap some (append-nil cs)

read_lines-line :
    (before s rest : Text)
    → OneLine s
    → read_lines before (s ++ 10 ∷ rest) ≡ add_command (before ++ s) (read_lines [] rest)
unfolding read_lines one_line
read_lines-line before [] rest h =
    ap (λ s. add_command s (read_lines [] rest)) (sym (append-nil before))
read_lines-line before (c ∷ s) rest h = elim (Bool-cases (c == 10)) [
  | inl e ↦ let no = rw (one_line, e) at h in cc no
  | inr e ↦ rw e (
      read_lines-line (before ++ c ∷ []) s rest (let tail = rw (one_line, e) at h in tail)
      ∙ ap (λ t. add_command t (read_lines [] rest)) (append_assoc before (c ∷ []) s))
]

-- A line is one command.
Reads-line :
    (word : String) (s : Text) (c : Command)
    → OneLine (codes word ++ s)
    → read_command (split_word (codes word ++ s)) ≡ some c
    → Reads (line word s) (c ∷ [])
Reads-line word s c one h = record {
  reads = λ rest ds e.
      ap read_text (append_assoc (codes word ++ s) (codes "\n") rest)
      ∙ read_lines-line [] (codes word ++ s) rest one
      ∙ rw (add_command, h, e) refl;
}

OneLine-above : (s : Text) → ((c : ℕ) → IsIn c s → 48 ≤ c) → OneLine s
unfolding one_line
OneLine-above [] h = refl
OneLine-above (c ∷ s) h =
    let big = h c first in
    let other : (c == 10) ≡ false = ground arith in
    rw other (OneLine-above s (λ d isin. h d (later isin)))

decimal-OneLine : (n : ℕ) → OneLine (decimal n)
unfolding decimal
decimal-OneLine n = OneLine-above (decimal n) (decimal_from-digits (suc n) n)

signed_decimal-OneLine : (i : ℤ) → OneLine (signed_decimal i)
unfolding signed_decimal one_line
signed_decimal-OneLine (pos n) = decimal-OneLine n
signed_decimal-OneLine (negsuc n) = decimal-OneLine (n + 1)

pub Reads-name : (s : Text) → OneLine s → Reads (line "name " s) (Commands.name s ∷ [])
unfolding read_command split_word ◌===◌ one_line
Reads-name s one = Reads-line "name " s (Commands.name s) one refl

pub Reads-alias : (s : Text) → OneLine s → Reads (line "alias " s) (Commands.alias s ∷ [])
unfolding read_command split_word ◌===◌ one_line
Reads-alias s one = Reads-line "alias " s (Commands.alias s) one refl

pub Reads-type : (s : Text) → OneLine s → Reads (line "type " s) (Commands.type s ∷ [])
unfolding read_command split_word ◌===◌ one_line
Reads-type s one = Reads-line "type " s (Commands.type s) one refl

pub Reads-ek : (s : Text) → OneLine s → Reads (line "ek " s) (Commands.ek s ∷ [])
unfolding read_command split_word ◌===◌ one_line
Reads-ek s one = Reads-line "ek " s (Commands.ek s) one refl

pub Reads-arch : (n : ℕ) → Reads (line "arch " (decimal n)) (Commands.arch n ∷ [])
unfolding read_command split_word ◌===◌ one_line
Reads-arch n =
    Reads-line "arch " (decimal n) (Commands.arch n) (decimal-OneLine n)
      (ap (Option.map Commands.arch) (read_number-decimal n))

pub Reads-size : (n : ℕ) → Reads (line "size " (decimal n)) (Commands.size n ∷ [])
unfolding read_command split_word ◌===◌ one_line
Reads-size n =
    Reads-line "size " (decimal n) (Commands.size n) (decimal-OneLine n)
      (ap (Option.map Commands.size) (read_number-decimal n))

pub Reads-offset : (n : ℕ) → Reads (line "offset " (decimal n)) (Commands.offset n ∷ [])
unfolding read_command split_word ◌===◌ one_line
Reads-offset n =
    Reads-line "offset " (decimal n) (Commands.offset n) (decimal-OneLine n)
      (ap (Option.map Commands.offset) (read_number-decimal n))

pub Reads-pdepth : (n : ℕ) → Reads (line "pdepth " (decimal n)) (Commands.pdepth n ∷ [])
unfolding read_command split_word ◌===◌ one_line
Reads-pdepth n =
    Reads-line "pdepth " (decimal n) (Commands.pdepth n) (decimal-OneLine n)
      (ap (Option.map Commands.pdepth) (read_number-decimal n))

pub Reads-arrsize : (n : ℕ) → Reads (line "arrsize " (decimal n)) (Commands.arrsize n ∷ [])
unfolding read_command split_word ◌===◌ one_line
Reads-arrsize n =
    Reads-line "arrsize " (decimal n) (Commands.arrsize n) (decimal-OneLine n)
      (ap (Option.map Commands.arrsize) (read_number-decimal n))

pub Reads-ev : (i : ℤ) → Reads (line "ev " (signed_decimal i)) (Commands.ev i ∷ [])
unfolding read_command split_word ◌===◌ one_line
Reads-ev i =
    Reads-line "ev " (signed_decimal i) (Commands.ev i) (signed_decimal-OneLine i)
      (ap (Option.map Commands.ev) (read_integer-signed_decimal i))

pub Reads-const : (b : Bool) → Reads (line "const " (bool_name b)) (Commands.const b ∷ [])
unfolding read_command split_word ◌===◌ one_line
Reads-const true = Reads-line "const " (codes "true") (Commands.const true) refl refl
Reads-const false = Reads-line "const " (codes "false") (Commands.const false) refl refl

pub Reads-isstruct : (b : Bool) → Reads (line "isstruct " (bool_name b)) (Commands.isstruct b ∷ [])
unfolding read_command split_word ◌===◌ one_line
Reads-isstruct true = Reads-line "isstruct " (codes "true") (Commands.isstruct true) refl refl
Reads-isstruct false = Reads-line "isstruct " (codes "false") (Commands.isstruct false) refl refl

pub Reads-base : Reads (line "base" []) (Commands.begin base ∷ [])
unfolding read_command split_word ◌===◌ one_line
Reads-base = Reads-line "base" [] (Commands.begin base) refl refl

pub Reads-struct : Reads (line "struct" []) (Commands.begin struct ∷ [])
unfolding read_command split_word ◌===◌ one_line
Reads-struct = Reads-line "struct" [] (Commands.begin struct) refl refl

pub Reads-union : Reads (line "union" []) (Commands.begin union ∷ [])
unfolding read_command split_word ◌===◌ one_line
Reads-union = Reads-line "union" [] (Commands.begin union) refl refl

pub Reads-enum : Reads (line "enum" []) (Commands.begin enum ∷ [])
unfolding read_command split_word ◌===◌ one_line
Reads-enum = Reads-line "enum" [] (Commands.begin enum) refl refl

pub Reads-field : Reads (line "field" []) (Commands.field ∷ [])
unfolding read_command split_word ◌===◌ one_line
Reads-field = Reads-line "field" [] (Commands.field) refl refl

pub Reads-enumerator : Reads (line "enumerator" []) (Commands.enumerator ∷ [])
unfolding read_command split_word ◌===◌ one_line
Reads-enumerator = Reads-line "enumerator" [] (Commands.enumerator) refl refl
