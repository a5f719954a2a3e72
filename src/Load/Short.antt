-- ===== src/Load/Short.antt =====
-- A buffer that ends within the header, such as the empty string that the linker gives when no file
-- is linked in.
use reflect_c.Base.{
  ℕ, zero, suc, ◌+◌, ◌*◌, ◌≤◌, ◌<◌, ◌≡◌, refl, inl, inr, Bool, false, List, [], ◌∷◌, arith,
  lt_cases, length, get_or, drop, length-drop, ok, fault, out_of_bounds,
}
use reflect_c.Memory.{CharPtr, bytes_at}
use reflect_c.Reader.{load, read_size_t}
use reflect_c.Types.{State}
use reflect_c.Load.{reflect_load_bytes, load_file}

load-short : (n : ℕ) (bs : List ℕ) → length bs < n → load n bs ≡ fault out_of_bounds
unfolding load
load-short zero bs short = absurd (omega arith)
load-short (suc n) [] short = refl
load-short (suc n) (b ∷ bs) short = rw (load-short n bs (omega arith))

load-long : (n : ℕ) (bs : List ℕ) → n ≤ length bs → (v : ℕ) × (load n bs ≡ ok v)
unfolding load
load-long zero bs long = (0, refl)
load-long (suc n) [] long = absurd (omega arith)
load-long (suc n) (b ∷ bs) long = let (v, e) = load-long n bs (omega arith) in (b + 256 * v, rw e)

-- In a state that has not loaded yet, `reflect_load_bytes` of a buffer that ends within its
-- first 16 bytes reads outside the buffer, in either mode.
pub reflect_load_bytes-short :
    (start : CharPtr) (copy : Bool) (st : State)
    → st.is_init ≡ false
    → length (bytes_at st.memory start) < 16
    → reflect_load_bytes start copy st ≡ fault out_of_bounds
unfolding reflect_load_bytes load_file read_size_t
reflect_load_bytes-short start copy st first short =
    let block = get_or st.memory start.block [] in
    let here : start.offset + 0 ≡ start.offset = omega arith in
    elim (lt_cases (length (bytes_at st.memory start)) 8) [
      | inl none_read ↦ simp first (rw (here, load-short 8 (bytes_at st.memory start) none_read))
      | inr one_read ↦
          let (v, e) = load-long 8 (bytes_at st.memory start) one_read in
          let left : length (drop (start.offset + 8) block) < 8 =
            omega (
              arith,
              short,
              length-drop start.offset block,
              length-drop (start.offset + 8) block,
            ) in
          simp first (rw (here, e, load-short 8 (drop (start.offset + 8) block) left))
    ]
