-- ===== src/Syscall/Write.antt =====
-- What `sys_write` of src/syscall.rs does with every argument.
use pinx_kernel.Prelude.{
  ℕ, zero, suc, ◌+◌, ◌≤◌, ◌<◌, ◌≡◌, refl, ◌∙◌, arith, false, not, ◌==◌, ◌&&◌, if◌then◌else◌, List,
  [], ◌∷◌, ◌++◌, append-nil, append_assoc, Bool-cases, inl, inr,
}
use pinx_kernel.Prelude.Run.{ret}
use pinx_kernel.Vmm.{vmm_virt_to_phys, no_phys}
use pinx_kernel.User.{Memory}
use pinx_kernel.Syscall.{Kernel, load, put_bytes, sys_write, user_range_valid, einval}
use pinx_kernel.Syscall.Ranges.{Resolves, user_range_valid-IsMapped}

-- The bytes that a program sees from an address on.
abbrev pub user_bytes : Memory → ℕ → ℕ → List ℕ
user_bytes m zero address = []
user_bytes m (suc n) address =
    m.bytes (vmm_virt_to_phys m.vmm address) ∷ user_bytes m n (address + 1)

pub load-bytes :
    (m : Memory) (address : ℕ)
    → Resolves m.vmm address
    → load m address ≡ ret (m.bytes (vmm_virt_to_phys m.vmm address))
unfolding load
load-bytes m address r =
    let test : (vmm_virt_to_phys m.vmm address == no_phys) ≡ false = ground arith in rw test refl

put_bytes_lem :
    (left : ℕ) (k : Kernel) (buffer written : ℕ)
    → ((i : ℕ) → written ≤ i → i < written + left → Resolves k.memory.vmm (buffer + i))
    → put_bytes left k buffer written
      ≡ ret (record k { console = k.console ++ user_bytes k.memory left (buffer + written) })
unfolding put_bytes
put_bytes_lem zero k buffer written r = rw (append-nil k.console) refl
put_bytes_lem (suc left) k buffer written r =
    let next : buffer + (written + 1) ≡ buffer + written + 1 = omega arith in
    rw (load-bytes k.memory (buffer + written) (r written (omega arith) (omega arith))) (
      put_bytes_lem left
        (record k {
          console =
              k.console ++ (k.memory.bytes (vmm_virt_to_phys k.memory.vmm (buffer + written)) ∷ []);
        })
        buffer (written + 1) (λ i l u. r i (omega arith) (omega arith))
      ∙ rw (append_assoc, next) refl)

-- What a write returns, and what it leaves.
abbrev pub written : Kernel → (fd buffer length : ℕ) → ℕ × Kernel
written k fd buffer length =
    if not (fd == 1) && not (fd == 2)
    then (einval, k)
    else if length == 0
    then (0, k)
    else if user_range_valid k.memory.vmm buffer length
    then (length, record k { console = k.console ++ user_bytes k.memory length buffer })
    else (einval, k)

-- Whatever its arguments, `sys_write` returns, and no byte that it reads faults. On a file
-- descriptor other than 1 and 2, or a range that the check refuses, it returns EINVAL and does
-- nothing; otherwise it returns the length, and has given the terminal the bytes of the range, in
-- order, and changed nothing else.
pub sys_write-written :
    (k : Kernel) (fd buffer length : ℕ)
    → sys_write k fd buffer length ≡ ret (written k fd buffer length)
unfolding sys_write
sys_write-written k fd buffer length = elim (Bool-cases (not (fd == 1) && not (fd == 2))) [
  | inl bad ↦ rw bad refl
  | inr good ↦ elim (Bool-cases (length == 0)) [
    | inl empty ↦ rw (good, empty) refl
    | inr some_bytes ↦ elim (Bool-cases (user_range_valid k.memory.vmm buffer length)) [
      | inl valid ↦
          let here : buffer + 0 ≡ buffer = omega arith in
          rw (good, some_bytes, valid)
            (let done : put_bytes length k buffer 0
                  ≡ ret (record k { console = k.console ++ user_bytes k.memory length buffer }) =
                put_bytes_lem length k buffer 0 (λ i l u.
                  (user_range_valid-IsMapped k.memory.vmm buffer length valid).resolves (buffer + i)
                    (omega arith) (omega arith))
                ∙ rw here refl in
              rw done refl)
      | inr invalid ↦ rw (good, some_bytes, invalid) refl
    ]
  ]
]
