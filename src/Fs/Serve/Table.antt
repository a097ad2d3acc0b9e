-- ===== src/Fs/Serve/Table.antt =====
-- The table of open files of fs/serv.c: which slot `open_alloc` gives, and the ids of the slots.
use demo2s.Base.{
  equal_or_not, ℕ, zero, suc, ◌-◌, ◌+◌, ◌%◌, ◌^◌, ◌≤◌, ◌<◌, ◌≡◌, ◌≢◌, ◌⊎◌, inl, inr, refl, sym, ◌∙◌,
  true, false, Bool-cases, done, arith, ok, err, no_mem, inval, u32, update,
}
use demo2s.Fs.Serve.{
  Serving, Open, maxopen, serve_init, claim, filefd_alloc, open_alloc_from, open_alloc, open_lookup,
}

-- The id of the i-th slot leaves the remainder i.
pub record IsTable (s : Serving) : Type 0 where
  pub id : (i : ℕ) → i < maxopen → (s.opentab i).o_fileid % maxopen ≡ i
  pub small : (i : ℕ) → i < maxopen → (s.opentab i).o_fileid < 2 ^ 32

-- What a search from the first slot on does when it gives slot k.
pub record IsClaimed (s s' : Serving) (first k : ℕ) : Type 0 where
  pub from : first ≤ k
  pub unused : s.refs k ≤ 1
  pub busy : (j : ℕ) → first ≤ j → j < k → 2 ≤ s.refs j
  pub table : s'.opentab ≡ (claim k s).opentab

pub search_granted :
    (left i : ℕ) (s : Serving)
    → s.refs i ≡ 0
    → s.fs.grants s.fs.asked ≡ true
    → open_alloc_from (suc left) i s
      ≡ done (ok i) (
          claim i
            (record s { fs = record (s.fs) { asked = s.fs.asked + 1 }; refs = update s.refs i 1 }))
unfolding open_alloc_from filefd_alloc
search_granted left i s z g = ground (arith, z, g)

pub search_refused :
    (left i : ℕ) (s : Serving)
    → s.refs i ≡ 0
    → s.fs.grants s.fs.asked ≡ false
    → open_alloc_from (suc left) i s
      ≡ done (err no_mem) (record s { fs = record (s.fs) { asked = s.fs.asked + 1 } })
unfolding open_alloc_from filefd_alloc
search_refused left i s z g = ground (arith, z, g)

pub search_one :
    (left i : ℕ) (s : Serving)
    → s.refs i ≡ 1
    → open_alloc_from (suc left) i s ≡ done (ok i) (claim i s)
unfolding open_alloc_from
search_one left i s o = ground (arith, o)

pub search_on :
    (left i : ℕ) (s : Serving)
    → 2 ≤ s.refs i
    → open_alloc_from (suc left) i s ≡ open_alloc_from left (i + 1) s
unfolding open_alloc_from
search_on left i s o = ground (arith, o)

pub zero_one_more : (n : ℕ) → (n ≡ 0) ⊎ ((n ≡ 1) ⊎ (2 ≤ n))
zero_one_more n = omega arith

same_claim :
    (s s' s1 : Serving) (i k : ℕ)
    → s1.opentab ≡ s.opentab
    → done (ok i) (claim i s1) ≡ done (ok k) s'
    → (i ≡ k) × (s'.opentab ≡ (claim k s).opentab)
same_claim s s' s1 i k same e =
    let eq : i ≡ k = cc in
    let state : s' ≡ claim i s1 = cc in
    let tab : (claim i s1).opentab ≡ (claim i s).opentab = rw same refl in
    (eq, rw⁻¹ eq (rw state tab))

busy_from :
    (s : Serving) {k : ℕ} (i : ℕ)
    → 2 ≤ s.refs i
    → ((j : ℕ) → i + 1 ≤ j → j < k → 2 ≤ s.refs j)
    → (j : ℕ) → i ≤ j
    → j < k
    → 2 ≤ s.refs j
busy_from s i more later j ij jk = elim (zero_one_more (j - i)) [
  | inl z ↦ (let eq : i ≡ j = omega (arith, z, ij) in rw⁻¹ eq more)
  | inr m ↦ later j (omega (arith, m, ij)) jk
]

found_here :
    (left : ℕ) (s s' s1 : Serving) (i k : ℕ)
    → s1.opentab ≡ s.opentab
    → s.refs i ≤ 1
    → done (ok i) (claim i s1) ≡ done (ok k) s'
    → (k < i + suc left) × IsClaimed s s' i k
found_here left s s' s1 i k same few e =
    let (eq, tab) = same_claim s s' s1 i k same e in
    let few_k : s.refs k ≤ 1 = rw⁻¹ eq few in
    (
      omega (arith, eq),
      record {
        from = omega (arith, eq);
        unused = few_k;
        busy = λ j ij jk. absurd (omega (arith, eq, ij, jk));
        table = tab;
      },
    )

search_lem :
    (left i k : ℕ) (s s' : Serving)
    → open_alloc_from left i s ≡ done (ok k) s'
    → (k < i + left) × IsClaimed s s' i k
unfolding open_alloc_from
search_lem zero i k s s' run = absurd (ground (arith, run))
search_lem (suc left) i k s s' run = elim (zero_one_more (s.refs i)) [
  | inl z ↦ elim (Bool-cases (s.fs.grants s.fs.asked)) [
    | inl g ↦
        found_here left s s'
          (record s { fs = record (s.fs) { asked = s.fs.asked + 1 }; refs = update s.refs i 1 }) i k
          refl (omega (arith, z)) (sym (search_granted left i s z g) ∙ run)
    | inr g ↦ absurd (ground (arith, search_refused left i s z g))
  ]
  | inr (inl o) ↦
      found_here left s s' s i k refl (omega (arith, o)) (sym (search_one left i s o) ∙ run)
  | inr (inr more) ↦
      (let (lt, c) = search_lem left (i + 1) k s s' (sym (search_on left i s more) ∙ run) in
        (
          omega (arith, lt),
          record {
            from = let f = c.from in omega (arith, f);
            unused = c.unused;
            busy = λ j ij jk. busy_from s i more (c.busy) j ij jk;
            table = c.table;
          },
        ))
]

slot_of : {t t' : ℕ → Open} (i : ℕ) → t ≡ t' → t i ≡ t' i
slot_of i e = rw e

slot_id : {t t' : ℕ → Open} (i : ℕ) → t ≡ t' → (t i).o_fileid ≡ (t' i).o_fileid
slot_id i e = rw e

claim_id :
    (i : ℕ) (s : Serving)
    → ((claim i s).opentab i).o_fileid ≡ u32 ((s.opentab i).o_fileid + maxopen)
claim_id i s = ground arith

claim_other : (i j : ℕ) (s : Serving) → j ≢ i → (claim i s).opentab j ≡ s.opentab j
claim_other i j s ne = ground arith

-- When `open_alloc` gives a slot, it is the first of the 1024 slots whose page has at most one mapping,
-- its id has grown by 1024 as a 32-bit number, and the rest of the table is as before.
pub open_alloc_lem :
    (s s' : Serving) (i : ℕ)
    → open_alloc s ≡ done (ok i) s'
    → (i < 1024)
      × (s.refs i ≤ 1)
      × ((j : ℕ) → j < i → 2 ≤ s.refs j)
      × ((s'.opentab i).o_fileid ≡ ((s.opentab i).o_fileid + 1024) % 2 ^ 32)
      × ((j : ℕ) → j ≢ i → s'.opentab j ≡ s.opentab j)
unfolding open_alloc
open_alloc_lem s s' i run =
    let (lt, c) = search_lem 1024 0 i s s' run in
    (
      lt,
      c.unused,
      (λ j ji. c.busy j (omega arith) ji),
      slot_id i c.table ∙ claim_id i s,
      (λ j ne. slot_of j c.table ∙ claim_other i j s ne),
    )

-- `serve_init` gives every slot an id with its own remainder.
pub serve_init-IsTable : (s : Serving) → IsTable (serve_init s)
unfolding serve_init
serve_init-IsTable s = record { id = λ i lt. omega (arith, lt); small = λ i lt. omega (arith, lt) }

lookup_found :
    (s : Serving) (fileid i : ℕ)
    → fileid % maxopen ≡ i
    → s.refs i ≢ 1
    → (s.opentab i).o_fileid ≡ fileid
    → open_lookup fileid s ≡ done (ok i) s
unfolding open_lookup
lookup_found s fileid i r many e = rw (r, e) (ground (arith, many))

lookup_stale :
    (s : Serving) (fileid i : ℕ)
    → fileid % maxopen ≡ i
    → (s.opentab i).o_fileid ≢ fileid
    → open_lookup fileid s ≡ done (err inval) s
unfolding open_lookup
lookup_stale s fileid i r ne = rw r (ground (arith, ne))

-- The ids keep the slot as their remainder by 1024, also when they wrap around at 2^32.
pub open_alloc-IsTable :
    (s s' : Serving) (i : ℕ) → IsTable s → open_alloc s ≡ done (ok i) s' → IsTable s'
open_alloc-IsTable s s' i t run =
    let (lt, few, busy, at, other) = open_alloc_lem s s' i run in
    record {
      id = λ j jlt. elim (equal_or_not j i) [
        | inl eq ↦
            (let old = t.id i lt in
              let new : (s'.opentab i).o_fileid % 1024 ≡ i = omega (arith, at, old, lt) in
              rw eq new)
        | inr ne ↦ rw (other j ne) (t.id j jlt)
      ];
      small = λ j jlt. elim (equal_or_not j i) [
        | inl eq ↦ (let new : (s'.opentab i).o_fileid < 2 ^ 32 = omega (arith, at) in rw eq new)
        | inr ne ↦ rw (other j ne) (t.small j jlt)
      ];
    }

-- After `open_alloc`, when the client maps the page, so that it does not have exactly one mapping, the new id finds the slot and the id that the slot had before is refused.
pub open_lookup-open_alloc :
    (s s' s2 : Serving) (i : ℕ)
    → IsTable s
    → open_alloc s ≡ done (ok i) s'
    → s2.opentab ≡ s'.opentab
    → s2.refs i ≢ 1
    → (open_lookup ((s'.opentab i).o_fileid) s2 ≡ done (ok i) s2)
      × (open_lookup ((s.opentab i).o_fileid) s2 ≡ done (err inval) s2)
unfolding open_lookup
open_lookup-open_alloc s s' s2 i t run same many =
    let (lt, few, busy, at, other) = open_alloc_lem s s' i run in
    let t' = open_alloc-IsTable s s' i t run in
    let old = t.id i lt in
    let old_small = t.small i lt in
    let now : (s2.opentab i).o_fileid ≡ (s'.opentab i).o_fileid = slot_id i same in
    (
      lookup_found s2 ((s'.opentab i).o_fileid) i (t'.id i lt) many now,
      lookup_stale s2 ((s.opentab i).o_fileid) i old (λ e. omega (arith, e, now, at, old_small)),
    )
