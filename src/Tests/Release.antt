-- ===== src/Tests/Release.antt =====
-- The buffer is freed after a load in copy mode.
use reflect_c.Base.{◌≡◌, refl, true, arith, Returns, ok}
use reflect_c.Memory.Strings.{c_string}
use reflect_c.Format.Names.{names_of, types_of}
use reflect_c.Types.Models.{Models}
use reflect_c.Load.{reflect_load_bytes}
use reflect_c.Load.File.{no_types, no_names}
use reflect_c.Query.{reflect_type_info_from_name}
use reflect_c.Owned.Copy.{release, reflect_load_bytes-release, release-type_info_from_name}
use reflect_c.Tests.Image.{memory, start, place, listed, before, image, program_string, p_name}

reflect_load_bytes-release_example :
    Returns
      (reflect_load_bytes start true before)
      (λ st'. Models (release 0 st') (types_of listed no_types) (names_of listed no_names) 5)
reflect_load_bytes-release_example = reflect_load_bytes-release memory start place listed image

release-type_info_from_name_example : Returns (reflect_load_bytes start true before) (λ st'.
    reflect_type_info_from_name (release 0 st') (program_string 0)
    ≡ ok (names_of listed no_names p_name))
unfolding c_string
release-type_info_from_name_example =
    release-type_info_from_name memory start place listed (program_string 0) p_name image refl
      (λ h. absurd (omega arith))
