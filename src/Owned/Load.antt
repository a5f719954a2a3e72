-- ===== src/Owned/Load.antt =====
-- The reads of the loader in copy mode, and its actions, on tables with owned pointers.
use reflect_c.Base.{
  ℕ, ◌≤◌, ◌≡◌, refl, ◌∙◌, true, [], ◌∷◌, arith, length, take, length-append, Run, After, After-bind,
  After-any, reached,
}
use reflect_c.Memory.{Memory, CharPtr, bytes_at, add_ptr}
use reflect_c.Reader.{
  Reader, load, remaining, as_bool, scan_nul, read_byte, read_bool, read_uint32_t, read_size_t,
  read_c_string, read_string, copy_string,
}
use reflect_c.Types.{State}
use reflect_c.Load.Monad.{
  Frame, Load, pure, bind, byte, bool, uint32_t, size_t, string, acting, seek,
}
use reflect_c.Owned.{StateOwned, FrameOwned}
use reflect_c.Owned.Types.{ResultOwned}

-- A read that leaves the mode.
abbrev KeepsMode : {A : Type 0} → Reader → A × Reader → Type 0
KeepsMode r (a, r') = r'.copy ≡ r.copy

read_byte-KeepsMode : (mem : Memory) (r : Reader) → After (KeepsMode r) (read_byte mem r)
unfolding read_byte
read_byte-KeepsMode mem r = After-bind (After-any (load 1 (remaining mem r))) λ b u. reached refl

read_size_t-KeepsMode : (mem : Memory) (r : Reader) → After (KeepsMode r) (read_size_t mem r)
unfolding read_size_t
read_size_t-KeepsMode mem r = After-bind (After-any (load 8 (remaining mem r))) λ b u. reached refl

read_uint32_t-KeepsMode : (mem : Memory) (r : Reader) → After (KeepsMode r) (read_uint32_t mem r)
unfolding read_uint32_t
read_uint32_t-KeepsMode mem r =
    After-bind (After-any (load 4 (remaining mem r))) λ b u. reached refl

read_bool-KeepsMode : (mem : Memory) (r : Reader) → After (KeepsMode r) (read_bool mem r)
unfolding read_bool
read_bool-KeepsMode mem r =
    After-bind (After-any (load 1 (remaining mem r)))
      λ b u. After-bind (After-any (as_bool b)) λ flag u'. reached refl

module _ (lo : ℕ) where
  -- A step of the loader keeps what is owned, and its value satisfies `P`.
  pub record Keeps {A : Type 0} (P : A → Type 0) (m : Load A) : Type 0 where
    pub after : (f : Frame) → FrameOwned lo f → After (λ (a, f'). P a × FrameOwned lo f') (m f)

  abbrev pub Any : {A : Type 0} → A → Type 0
  Any a = Unit {0}

  pub bind-Keeps :
      {A B : Type 0} {P : A → Type 0} {Q : B → Type 0} {m : Load A} {k : A → Load B}
      → Keeps P m
      → ((a : A) → P a → Keeps Q (k a))
      → Keeps Q (bind m k)
  bind-Keeps hm hk = record {
    after = λ f h. After-bind (hm.after f h) λ (a, f') (p, h'). (hk a p).after f' h';
  }

  pub pure-Keeps : Keeps Any (pure tt)
  pure-Keeps = record { after = λ f h. reached (tt, h) }

  pub byte-Keeps : Keeps Any byte
  byte-Keeps = record {
    after = λ f h.
        After-bind (read_byte-KeepsMode f.state.memory f.reader)
          λ (a, r) same. reached (tt, record { state = h.state; copy = same ∙ h.copy });
  }

  pub bool-Keeps : Keeps Any bool
  bool-Keeps = record {
    after = λ f h.
        After-bind (read_bool-KeepsMode f.state.memory f.reader)
          λ (a, r) same. reached (tt, record { state = h.state; copy = same ∙ h.copy });
  }

  pub uint32_t-Keeps : Keeps Any uint32_t
  uint32_t-Keeps = record {
    after = λ f h.
        After-bind (read_uint32_t-KeepsMode f.state.memory f.reader)
          λ (a, r) same. reached (tt, record { state = h.state; copy = same ∙ h.copy });
  }

  pub size_t-Keeps : Keeps Any size_t
  size_t-Keeps = record {
    after = λ f h.
        After-bind (read_size_t-KeepsMode f.state.memory f.reader)
          λ (a, r) same. reached (tt, record { state = h.state; copy = same ∙ h.copy });
  }

  -- A copied string is a new block, behind all that there were.
  abbrev NewString : CharPtr × Memory → Type 0
  NewString (p, mem) = (lo ≤ p.block) × (lo ≤ length mem)

  copy_string-NewString :
      (mem : Memory) (start : CharPtr) → lo ≤ length mem → After NewString (copy_string mem start)
  unfolding copy_string
  copy_string-NewString mem start grown =
      After-bind (After-any (scan_nul (bytes_at mem start))) λ size u.
        reached (grown, omega (arith, length-append mem (take size (bytes_at mem start) ∷ [])))

  abbrev StringRead : CharPtr × Reader × Memory → Type 0
  StringRead (p, r, mem) = (lo ≤ p.block) × (r.copy ≡ true) × (lo ≤ length mem)

  read_c_string-StringRead :
      (mem : Memory) (r : Reader) (offset : ℕ)
      → lo ≤ length mem
      → r.copy ≡ true
      → After StringRead (read_c_string mem r offset)
  unfolding read_c_string
  read_c_string-StringRead mem r offset grown mode = simp mode (
      After-bind (copy_string-NewString mem (add_ptr r.source offset) grown)
        λ (p, mem') (new, grown'). reached (new, mode, grown'))

  pub string-Keeps : Keeps (λ p. lo ≤ p.block) string
  unfolding read_string
  string-Keeps = record {
    after = λ f h.
        After-bind
          (After-bind (read_size_t-KeepsMode f.state.memory f.reader) λ (offset, r) same.
            read_c_string-StringRead f.state.memory r offset h.state.grown (same ∙ h.copy))
          λ (p, r, mem) (new, mode, grown). reached (
            new,
            record {
              state = record { entries = h.state.entries; names = h.state.names; grown = grown };
              copy = mode;
            },
          );
  }

  pub acting-Keeps :
      {A : Type 0} {act : State → Run (A × State)}
      → ((st : State) → StateOwned lo st → After (ResultOwned lo) (act st))
      → Keeps Any (acting act)
  acting-Keeps ha = record {
    after = λ f h.
        After-bind (ha f.state h.state)
          λ (a, st) owned. reached (tt, record { state = owned; copy = h.copy });
  }

  pub seek-Keeps : (offset : ℕ) → Keeps Any (seek offset)
  seek-Keeps offset = record {
    after = λ f h. reached (tt, record { state = h.state; copy = h.copy });
  }
