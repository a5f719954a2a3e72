-- ===== src/Tests/Names.antt =====
-- The name of a file, and the same with a dot in the name of its directory.
use reflect_c.Base.{◌≡◌, refl, codes}
use reflect_c.Plugin.Action.{output_file, no_dot, output_file-stem}

renamed : output_file (codes "build/main.o") ≡ codes "build/main.reflection.dat"
unfolding no_dot
renamed = (output_file-stem (codes "build/main") (codes "o") refl).0

directory_lost : output_file (codes "out.d/main") ≡ codes "out.reflection.dat"
unfolding no_dot
directory_lost = (output_file-stem (codes "out") (codes "d/main") refl).0
