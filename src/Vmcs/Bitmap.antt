-- ===== src/Vmcs/Bitmap.antt =====
-- The map of ports that `init_host` of src/vmcs/vmcs.cpp fills.
use littlevisor.Base.{
  ℕ, ◌+◌, ◌/◌, ◌%◌, ◌≡◌, refl, sym, ◌∙◌, inl, inr, Bool, false, ◌||◌, List, [], ◌∷◌, ◌==◌,
  if◌then◌else◌, arith, Bool-cases, ==_iff,
}
use littlevisor.Bits.{bit}
use littlevisor.Common.{Memory, setbit}
use littlevisor.Common.Bitops.{bit-setbit}
use littlevisor.Vmcs.Setup.{set_ports}

abbrev pub has_port : ℕ → List ℕ → Bool
has_port p [] = false
has_port p (port ∷ ports) = p == port || has_port p ports

-- In the map of ports, the bit of a port is set if the port is in the list, and is otherwise as it
-- was before.
pub set_ports-bit :
    (ports : List ℕ) (m : Memory) (ioio_map_ptr p : ℕ)
    → bit (set_ports ports m ioio_map_ptr (ioio_map_ptr + p / 8)) (p % 8)
      ≡ (if has_port p ports then 1 else bit (m (ioio_map_ptr + p / 8)) (p % 8))
unfolding set_ports
set_ports-bit [] m base p = refl
set_ports-bit (port ∷ ports) m base p =
    let small : port % 8 % 256 ≡ port % 8 = omega arith in
    let byte = base + port / 8 in
    set_ports-bit ports (λ a. if a == byte then setbit 8 (m byte) (port % 8 % 256) else m a) base p
    ∙ elim (Bool-cases (has_port p ports)) [
      | inl later ↦ rw later (ground arith)
      | inr not_later ↦ rw not_later (elim (Bool-cases (base + p / 8 == byte)) [
        | inl same ↦
            let at : base + p / 8 ≡ byte = (==_iff (base + p / 8) byte).0 same in
            rw (same, small, bit-setbit 8 (m byte) (port % 8) (p % 8) (omega arith), sym at)
              (ground (arith, at))
        | inr other ↦ rw other (ground (arith, other))
      ])
    ]
