-- ===== src/Ext4/Agree.antt =====
-- `lookup` and `read_dir` of src/ext4.rs see the same entries of a directory block.
use pinx_kernel.Prelude.{
  ℕ, zero, suc, ◌+◌, ◌≤◌, ◌<◌, ◌≡◌, ◌≢◌, refl, sym, ap, ◌∙◌, arith, true, false, not, ◌&&◌, ◌==◌,
  ltb, leb, Option, none, some, if◌then◌else◌, List, [], ◌∷◌, ◌++◌, append-nil, append_assoc,
  get_or, slice, drop, length, length-take, length-drop, Bool-cases, inl, inr,
}
use mathlib.Core.Path.{subst}
use pinx_kernel.Prelude.Run.{Run, panic, out_of_fuel, ret, ◌>>=◌, IfReturns}
use pinx_kernel.Prelude.Bytes.{bytes_eq, bytes_eq-eq}
use pinx_kernel.Ext4.{DirEnt, le16, le32}
use pinx_kernel.Ext4.Extents.{or_else}
use pinx_kernel.Ext4.Entries.{list_from, find_entry, store_entry, is_named}

-- The inode of the first entry with the name.
abbrev pub first_named : List ℕ → List DirEnt → Option ℕ
first_named name [] = none
first_named name (e ∷ es) = if bytes_eq e.name name then some e.ino else first_named name es

-- The loop of `read_dir` added the entries `es` to those before, and the loop of `lookup` finds
-- the first of them with the name.
pub record Agrees (name : List ℕ) (out : List DirEnt) (found : Run (Option ℕ))
    (listed : ℕ × List DirEnt) : Type 0 where
  pub es : List DirEnt
  pub added : listed.1 ≡ out ++ es
  pub finds : found ≡ ret (first_named name es)

nil_append : {A : Type 0} (xs : List A) → [] ++ xs ≡ xs
nil_append xs = refl

module _ (blk : List ℕ) (limit room : ℕ) (name : List ℕ) (short : length name ≤ 255) where
  -- What each loop does with one entry, and then the rest.
  list_step : ℕ → (n pos eino rec : ℕ) → List DirEnt → Run (ℕ × List DirEnt)
  list_step left n pos eino rec out =
      if rec == 0
      then ret (n, out)
      else (if not (eino == 0) && leb (get_or blk (pos + 6) 0) 255
          then (do
            out ← store_entry blk room n pos eino out
            list_from left blk limit room (n + 1) (pos + rec) out)
          else list_from left blk limit room n (pos + rec) out)

  find_step : ℕ → (pos eino rec : ℕ) → Run (Option ℕ)
  find_step left pos eino rec = if rec == 0 then ret none else (do
    here ← is_named blk name pos eino
    or_else here (find_entry left blk limit name (pos + rec)))

  -- A name of another length is another name.
  other_length :
      (pos n : ℕ) → pos + n ≤ length blk → n ≢ length name → bytes_eq (slice pos n blk) name ≡ false
  other_length pos n fits ne = elim (Bool-cases (bytes_eq (slice pos n blk) name)) [
    | inl same ↦ absurd (
        ne (
          omega (
            arith,
            ap length (bytes_eq-eq (slice pos n blk) name same),
            length-take n (drop pos blk),
            length-drop pos blk,
          )))
    | inr other ↦ other
  ]

  -- The entries seen so far only grow in number, and the two loops agree on the rest if there is
  -- room for all of them.
  Goes : ℕ → List DirEnt → Run (Option ℕ) → Run (ℕ × List DirEnt) → Type 0
  Goes n out found listing =
      IfReturns (λ listed. (n ≤ listed.0) × (listed.0 ≤ room → Agrees name out found listed))
        listing

  Rest : ℕ → Type 0
  Rest left =
      (n pos : ℕ) (out : List DirEnt)
      → Goes n out (find_entry left blk limit name pos) (list_from left blk limit room n pos out)

  -- The test of `lookup` on an entry whose name lies in the block.
  is_named_lem :
      (pos eino : ℕ)
      → (eino == 0) ≡ false
      → leb (pos + 8 + get_or blk (pos + 6) 0) (length blk) ≡ true
      → is_named blk name pos eino
        ≡ ret (
            if bytes_eq (slice (pos + 8) (get_or blk (pos + 6) 0) blk) name
            then some eino
            else none)
  unfolding is_named
  is_named_lem pos eino live fits = elim (Bool-cases (get_or blk (pos + 6) 0 == length name)) [
    | inl same ↦
        let e : get_or blk (pos + 6) 0 ≡ length name = ground arith in
        let here : leb (pos + 8 + length name) (length blk) ≡ true =
          ap (λ k. leb (pos + 8 + k) (length blk)) (sym e) ∙ fits in
        rw (live, same, here, e) refl
    | inr other ↦
        let differs =
          other_length (pos + 8) (get_or blk (pos + 6) 0) (ground arith) (λ e. ground arith) in
        rw (live, other, differs) refl
  ]

  here_entry : (pos eino : ℕ) → DirEnt
  here_entry pos eino = record {
    ino = eino;
    file_type = get_or blk (pos + 7) 0;
    name = slice (pos + 8) (get_or blk (pos + 6) 0) blk;
  }

  store_entry_lem :
      (n pos eino : ℕ) (out : List DirEnt)
      → n < room
      → leb (pos + 8 + get_or blk (pos + 6) 0) (length blk) ≡ true
      → store_entry blk room n pos eino out ≡ ret (out ++ (here_entry pos eino ∷ []))
  unfolding store_entry here_entry
  store_entry_lem n pos eino out l fits =
      let room_left : ltb n room ≡ true = ground arith in rw (room_left, fits) refl

  store_entry_panics :
      (n pos eino : ℕ) (out : List DirEnt)
      → n < room
      → leb (pos + 8 + get_or blk (pos + 6) 0) (length blk) ≡ false
      → store_entry blk room n pos eino out ≡ panic
  unfolding store_entry
  store_entry_panics n pos eino out l fits =
      let room_left : ltb n room ≡ true = ground arith in rw (room_left, fits) refl

  -- An entry in front of those that the rest agrees on.
  more :
      (n : ℕ) (out : List DirEnt) (e : DirEnt) (found : Run (Option ℕ)) (r : Run (ℕ × List DirEnt))
      → Goes (n + 1) (out ++ (e ∷ [])) found r
      → Goes n out (or_else (if bytes_eq e.name name then some e.ino else none) found) r
  unfolding Goes
  more n out e found panic h = tt
  more n out e found out_of_fuel h = tt
  more n out e found (ret (k, l)) h = (
    omega (arith, h.0),
    λ fits.
        let a = h.1 fits in
        record {
          es = e ∷ a.es;
          added = a.added ∙ append_assoc out (e ∷ []) a.es;
          finds = elim (Bool-cases (bytes_eq e.name name)) [
            | inl same ↦ rw same refl
            | inr other ↦ rw other a.finds
          ];
        },
  )

  -- An entry for which there is no room.
  crowded :
      (n : ℕ) (out : List DirEnt) (found other : Run (Option ℕ)) (r : Run (ℕ × List DirEnt))
      → room ≤ n
      → Goes (n + 1) out found r
      → Goes n out other r
  unfolding Goes
  crowded n out found other panic l h = tt
  crowded n out found other out_of_fuel l h = tt
  crowded n out found other (ret (k, es)) l h =
      (omega (arith, h.0), λ fits. absurd (omega (arith, h.0)))

  store_entry_full :
      (n pos eino : ℕ) (out : List DirEnt)
      → ltb n room ≡ false
      → store_entry blk room n pos eino out ≡ ret out
  unfolding store_entry
  store_entry_full n pos eino out l = rw l refl

  -- The loops end here.
  stops : (n : ℕ) (out : List DirEnt) → Goes n out (ret none) (ret (n, out))
  unfolding Goes
  stops n out =
      (omega arith, λ fits. record { es = []; added = sym (append-nil out); finds = refl })

  -- One entry of both loops.
  step-Goes :
      (left n pos eino rec : ℕ) (out : List DirEnt)
      → Rest left
      → Goes n out (find_step left pos eino rec) (list_step left n pos eino rec out)
  unfolding find_step list_step is_named Rest here_entry Goes
  step-Goes left n pos eino rec out rest = elim (Bool-cases (rec == 0)) [
    | inl stop ↦ rw stop (stops n out)
    | inr on ↦ elim (Bool-cases (eino == 0)) [
      | inl unused ↦ rw (on, unused) (rest n (pos + rec) out)
      | inr live ↦ elim (Bool-cases (leb (get_or blk (pos + 6) 0) 255)) [
        | inr long ↦
            let other : (get_or blk (pos + 6) 0 == length name) ≡ false = ground arith in
            rw (on, live, long, other) (rest n (pos + rec) out)
        | inl named ↦ elim (Bool-cases (ltb n room)) [
          | inr full ↦
              rw (on, live, named, store_entry_full n pos eino out full)
                (crowded n out (find_entry left blk limit name (pos + rec)) _
                  (list_from left blk limit room (n + 1) (pos + rec) out) (ground arith)
                  (rest (n + 1) (pos + rec) out))
          | inl l ↦ elim (Bool-cases (leb (pos + 8 + get_or blk (pos + 6) 0) (length blk))) [
            | inl fits ↦
                rw
                  (
                    on,
                    is_named_lem pos eino live fits,
                    live,
                    named,
                    store_entry_lem n pos eino out (ground arith) fits,
                  )
                  (more n out (here_entry pos eino) (find_entry left blk limit name (pos + rec))
                    (list_from left blk limit room (n + 1) (pos + rec)
                      (out ++ (here_entry pos eino ∷ [])))
                    (rest (n + 1) (pos + rec) (out ++ (here_entry pos eino ∷ []))))
            | inr beyond ↦
                rw (on, live, named, store_entry_panics n pos eino out (ground arith) beyond) tt
          ]
        ]
      ]
    ]
  ]

  -- The two fields that both loops read, in either order.
  fields-Goes :
      (left n pos : ℕ) (out : List DirEnt) (eino rec : Run ℕ)
      → Rest left
      → Goes n out
          (rec >>= λ rec. eino >>= λ eino. find_step left pos eino rec)
          (eino >>= λ eino. rec >>= λ rec. list_step left n pos eino rec out)
  unfolding Goes
  fields-Goes left n pos out panic rec rest = tt
  fields-Goes left n pos out out_of_fuel rec rest = tt
  fields-Goes left n pos out (ret eino) panic rest = tt
  fields-Goes left n pos out (ret eino) out_of_fuel rest = tt
  fields-Goes left n pos out (ret eino) (ret rec) rest =
      unfold Goes in step-Goes left n pos eino rec out rest

  list_from-Goes : (left : ℕ) → Rest left
  unfolding Rest list_from find_entry list_step find_step
  list_from-Goes zero n pos out = unfold Goes in tt
  list_from-Goes (suc left) n pos out = elim (Bool-cases (leb (pos + 8) limit)) [
    | inl inside ↦
        rw inside
          (fields-Goes left n pos out (le32 blk pos) (le16 blk (pos + 4)) (list_from-Goes left))
    | inr end ↦ rw end (stops n out)
  ]

  -- Of a directory block of which `read_dir` lists `n` entries, without panic and into a buffer
  -- with room for `n` of them, `lookup` of a name of at most 255 bytes finds, in as many rounds,
  -- what a search of the list finds: the inode of the first entry with that name, or nothing.
  pub list_from-find_entry :
      (left n : ℕ) (es : List DirEnt)
      → list_from left blk limit room 0 0 [] ≡ ret (n, es)
      → n ≤ room
      → find_entry left blk limit name 0 ≡ ret (first_named name es)
  unfolding Rest Goes
  list_from-find_entry left n es listed fits =
      let h =
        subst (λ r. Goes 0 [] (find_entry left blk limit name 0) r) listed
          (list_from-Goes left 0 0 []) in
      let a = h.1 fits in
      a.finds ∙ ap (λ l. ret (first_named name l)) (sym (a.added ∙ nil_append a.es))
