-- ===== src/Tests/Files.antt =====
-- `load_reflection` on the file, and on one that is cut short.
use reflect_c.Base.{ℕ, ◌≡◌, refl, true, false, [], ◌∷◌, arith, length, Returns, ok}
use reflect_c.Plugin.Int.{pos}
use reflect_c.Types.{initial}
use reflect_c.Load.File.{LoadedFile}
use reflect_c.Reader.Encoding.{little_endian}
use reflect_c.Sample.{
  Outside, load_reflection, IsRead, load_reflection-LoadedFile, load_reflection-unread,
}
use reflect_c.Tests.Image.{file_bytes, listed, place, file-IsImage}

abbrev whole : Outside
whole = record {
  is_open = true;
  file_size = pos (length file_bytes);
  has_room = true;
  read_bytes = file_bytes;
}

abbrev cut : Outside
cut = record {
  is_open = true;
  file_size = pos (length file_bytes);
  has_room = true;
  read_bytes = [];
}

whole-IsRead : IsRead whole (length file_bytes)
unfolding little_endian
whole-IsRead = record {
  opened = refl;
  sized = refl;
  some_bytes = omega arith;
  room = refl;
  whole = refl;
}

load_reflection-LoadedFile_example :
    Returns
      (load_reflection whole (initial []))
      (λ (loaded, st'). (loaded ≡ true) × LoadedFile (initial (file_bytes ∷ [])) listed st')
load_reflection-LoadedFile_example =
    load_reflection-LoadedFile whole (length file_bytes) (initial []) place listed whole-IsRead refl
      (file-IsImage [])

cut-unread : (size : ℕ) → ¬ IsRead cut size
cut-unread size h = let some_bytes = h.some_bytes in let none_read = h.whole in absurd (omega arith)

load_reflection-unread_example : load_reflection cut (initial []) ≡ ok (false, initial [])
load_reflection-unread_example = load_reflection-unread cut (initial []) cut-unread
