-- ===== src/Ext4/Mounted.antt =====
-- What `mount` of src/ext4.rs has checked of a volume that it returns.
use pinx_kernel.Prelude.{
  ℕ, zero, suc, ◌≤◌, ◌<◌, ◌≡◌, ◌⊎◌, inl, inr, refl, arith, Bool, true, false, not, ◌&&◌, ◌||◌, ◌==◌,
  ltb, List, max, bit_and, ◌<<<◌,
}
use pinx_kernel.Prelude.Run.{Run, panic, out_of_fuel, ret}
use pinx_kernel.Ext4.{FsError, le16, le32}
use pinx_kernel.Ext4.Volume.{Device, Ext4, Answer, ok, err}
use pinx_kernel.Ext4.Mount.{
  ◌>>=◌, field, unless, super_bs, super_again, make_volume, mount, first_read, check_features,
  counter, super_csum,
}

-- What holds of a value that is returned.
abbrev pub IfOk : {A : Type 0} → (A → Type 0) → Run (Answer A) → Type 0
IfOk P panic = Unit
IfOk P out_of_fuel = Unit
IfOk P (ret (ok a)) = P a
IfOk P (ret (err e)) = Unit

IfOk-bind :
    {A B : Type 0} {Q : A → Type 0} (P : B → Type 0) (f : A → Run (Answer B)) (r : Run (Answer A))
    → IfOk Q r
    → ((a : A) → Q a → IfOk P (f a))
    → IfOk P (r >>= f)
IfOk-bind P f panic h g = tt
IfOk-bind P f out_of_fuel h g = tt
IfOk-bind P f (ret (ok a)) h g = g a h
IfOk-bind P f (ret (err e)) h g = tt

IfOk-any :
    {A B : Type 0} (P : B → Type 0) (f : A → Run (Answer B)) (r : Run (Answer A))
    → ((a : A) → IfOk P (f a))
    → IfOk P (r >>= f)
IfOk-any P f panic g = tt
IfOk-any P f out_of_fuel g = tt
IfOk-any P f (ret (ok a)) g = g a
IfOk-any P f (ret (err e)) g = tt

IfOk-unless :
    {A : Type 0} (P : A → Type 0) (bad : Bool) (e : FsError) (rest : Run (Answer A))
    → (bad ≡ false → IfOk P rest)
    → IfOk P (unless bad e rest)
unfolding unless
IfOk-unless P true e rest h = tt
IfOk-unless P false e rest h = h refl

-- A block size that the driver supports.
abbrev pub IsBlockSize : ℕ → Type 0
IsBlockSize bs = (bs ≡ 1024) ⊎ (bs ≡ 2048) ⊎ (bs ≡ 4096)

-- The geometry that every later operation relies on.
pub record IsMounted {D : Device} (s : Ext4 D) : Type 0 where
  pub block_size : IsBlockSize s.bs
  pub some_blocks : 0 < s.bpg
  pub some_inodes : 0 < s.ipg
  pub inode_low : 128 ≤ s.inode_size
  pub inode_high : s.inode_size ≤ 256
  pub desc_low : 32 ≤ s.desc_size
  pub desc_64 : s.has_64bit ≡ true → 64 ≤ s.desc_size

super_bs-IsBlockSize : (buf : List ℕ) → IfOk IsBlockSize (super_bs buf)
unfolding super_bs
super_bs-IsBlockSize buf = IfOk-any _ _ (field (le16 buf 0x38)) (λ magic.
    IfOk-unless IsBlockSize _ FsError.corrupt _ (λ _. IfOk-any _ _ (field (le32 buf 0x18)) (λ log.
      IfOk-any _ _ (field (le32 buf 0x1C)) (λ cluster.
        IfOk-unless IsBlockSize (ltb 2 log) FsError.unsupported _ (λ low.
          IfOk-unless IsBlockSize _ FsError.unsupported _ (λ _. sizes log (ground arith)))))))
  where
    sizes : (log : ℕ) → log ≤ 2 → IsBlockSize (1024 <<< log)
    sizes zero h = inl refl
    sizes (suc zero) h = inr (inl refl)
    sizes (suc (suc zero)) h = inr (inr refl)
    sizes (suc (suc (suc log))) h = absurd (omega arith)

module _ (D : Device) (dev : D.State) (bs : ℕ) (size : IsBlockSize bs) where
  make_volume-IsMounted : (buf : List ℕ) → IfOk IsMounted (make_volume {D = D} dev bs buf)
  unfolding make_volume
  make_volume-IsMounted buf = IfOk-any _ _ (field (le32 buf 0x00)) (λ inodes_total.
      IfOk-any _ _ (field (le32 buf 0x20)) (λ bpg. IfOk-any _ _ (field (le32 buf 0x28)) (λ ipg.
        IfOk-unless IsMounted (inodes_total == 0 || bpg == 0 || ipg == 0) FsError.corrupt _
          (λ counts. IfOk-any _ _ (field (le32 buf 0x4C)) (λ rev.
            IfOk-any _ _ (field (le16 buf 0x58)) (λ raw_inode_size.
              IfOk-any _ _ (field (le32 buf 0x60)) (λ incompat.
                IfOk-any _ _ (field (le32 buf 0x64)) (λ ro_compat.
                  IfOk-any _ _ (field (le16 buf 0xFE)) (λ raw_desc_size.
                    IfOk-unless IsMounted _ FsError.unsupported _ (λ _.
                      IfOk-unless IsMounted (ltb 256 (max raw_inode_size 128)) FsError.unsupported _
                        (λ inode. IfOk-any _ _ (check_features incompat ro_compat) (λ _.
                          IfOk-unless IsMounted _ FsError.corrupt _ (λ desc.
                            IfOk-any _ _ (counter (not (bit_and incompat 0x80 == 0)) buf 0x04 0x150)
                              (λ _.
                                IfOk-any _ _
                                  (counter (not (bit_and incompat 0x80 == 0)) buf 0x0C 0x158)
                                  (λ _. IfOk-any _ _ (field (le32 buf 0x10)) (λ _.
                                    IfOk-any _ _ (field (le32 buf 0x14)) (λ _.
                                      IfOk-any _ _ (field (le16 buf 0xCE)) (λ _.
                                        IfOk-any _ _ (field (le32 buf 0x270)) (λ _.
                                          IfOk-any _ _
                                            (super_csum buf (
                                              not (bit_and ro_compat 0x400 == 0)
                                              && not (bit_and incompat 0x2000 == 0)))
                                            (λ _. record {
                                              block_size = size;
                                              some_blocks = ground arith;
                                              some_inodes = ground arith;
                                              inode_low = omega arith;
                                              inode_high = ground arith;
                                              desc_low = ground arith;
                                              desc_64 = λ h. ground arith;
                                            }))))))))))))))))))))

-- A volume that `mount` returns, whatever the device holds, has blocks of 1024, 2048 or 4096 bytes,
-- at least one block and one inode in a group, inodes of 128 to 256 bytes, and group descriptors of
-- at least 32 bytes, 64 with the 64-bit feature.
pub mount-IsMounted :
    (D : Device) (dev : D.State) (block_size : ℕ) → IfOk IsMounted (mount D dev block_size)
unfolding mount
mount-IsMounted D dev block_size = IfOk-unless IsMounted _ FsError.unsupported _ (λ _.
    IfOk-any _ _ (first_read (D.read_blocks dev 2 1024)) (λ buf.
      IfOk-bind _ _ (super_bs buf) (super_bs-IsBlockSize buf) (λ bs size.
        IfOk-any _ _ (super_again D dev bs buf) (λ buf. make_volume-IsMounted D dev bs size buf))))
