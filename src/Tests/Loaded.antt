-- ===== src/Tests/Loaded.antt =====
-- The state after a load of the file, by running the loader.
use reflect_c.Base.{ℕ, ◌≡◌, refl, sym, ap, subst, Bool, some, List, Run, ok, fault}
use reflect_c.Memory.{CharPtr}
use reflect_c.Memory.Strings.{text, text-Extends}
use reflect_c.Format.Names.{names_of, types_of}
use reflect_c.Types.{State}
use reflect_c.Types.Models.{Models}
use reflect_c.Load.{reflect_load_bytes}
use reflect_c.Load.File.{no_types, no_names, LoadedFile, reflect_load_bytes-LoadedFile}
use reflect_c.Tests.Image.{listed, place, memory, start, before, image}

abbrev pub state_of : Run State → State
state_of (ok st) = st
state_of (fault e) = before

-- Mode by mode: whether strings are copied.
abbrev pub loaded : Bool → State
loaded copy = state_of (reflect_load_bytes start copy before)

loaded-LoadedFile : (copy : Bool) → LoadedFile before listed (loaded copy)
loaded-LoadedFile copy =
    let (st', run, h) = reflect_load_bytes-LoadedFile start place listed copy before refl image in
    subst (λ st. LoadedFile before listed st) (sym (ap state_of run)) h

pub loaded-Models :
    (copy : Bool) → Models (loaded copy) (types_of listed no_types) (names_of listed no_names) 5
loaded-Models copy = (loaded-LoadedFile copy).0

pub loaded-text :
    (copy : Bool) (p : CharPtr) {s : List ℕ}
    → text memory p ≡ some s
    → text (loaded copy).memory p ≡ some s
loaded-text copy p h = text-Extends (loaded-LoadedFile copy).1 p h
