-- ===== src/Rtable/Message.antt =====
-- A whole routing table on the wire: `rtable_serialize` and `rtable_unserialize` of tcp_branch/rtable.c.
use tcp_archive.Prelude.{
  ℕ, zero, suc, ◌-◌, ◌*◌, ◌≤◌, ◌≡◌, ◌≢◌, refl, sym, ◌∙◌, ap, none, some, true, false, List, [], ◌∷◌,
  ◌++◌, length, drop, ltb, lt→ltb, ◌==◌, ==_ne, if◌then◌else◌, contains, is_some, arith,
  Option-cases, Bool-cases, inl, inr, length-append,
}
use mathlib.Core.List.{append_assoc, append-nil}
use tcp_archive.External.{HTable}
use tcp_archive.Rtable.{
  Entry, Rtable, entry_serialize, serialize_keys, rtable_serialize, unserialize_loop,
  rtable_unserialize, rtable_put, rtable_new,
}
use tcp_archive.Rtable.Merge.{Keyed}
use tcp_archive.Rtable.Wire.{IsEntry, entry_unserialize-serialize}

drop_all : {A : Type 0} (l : List A) (n : ℕ) → length l ≤ n → drop n l ≡ []
drop_all [] zero h = refl
drop_all [] (suc n) h = refl
drop_all (x ∷ l) zero h = absurd (omega (arith, h))
drop_all (x ∷ l) (suc n) h = drop_all l n (omega (arith, h))

length-entry_serialize : (e : Entry) → length (entry_serialize e) ≡ 20
unfolding entry_serialize
length-entry_serialize e = refl

module _ (H : HTable) where
  -- The table's entries under a list of keys; those that the filter leaves out are left out.
  pub entries : Rtable H → ℕ → List ℕ → List Entry
  entries rt filter [] = []
  entries rt filter (k ∷ ks) = elim (H.get rt k) [
    | none ↦ entries rt filter ks
    | some e ↦ if e.next_hop == filter then entries rt filter ks else e ∷ entries rt filter ks
  ]

  AllThere : Rtable H → List ℕ → Type 0
  AllThere rt [] = Unit {0}
  AllThere rt (k ∷ ks) = (is_some (H.get rt k) ≡ true) × AllThere rt ks

-- Entries one behind the other.
pub message : List Entry → List ℕ
message [] = []
message (e ∷ es) = entry_serialize e ++ message es

length-message : (es : List Entry) → length (message es) ≡ 20 * length es
unfolding message
length-message [] = refl
length-message (e ∷ es) = omega (
  arith,
  length-append (entry_serialize e) (message es),
  length-entry_serialize e,
  length-message es,
)

module _ (H : HTable) where
  serialize_keys_lem :
      (rt : Rtable H) (filter left : ℕ) (ks : List ℕ)
      → AllThere H rt ks
      → 20 * length ks ≤ left
      → serialize_keys H rt filter left ks ≡ some (message (entries H rt filter ks))
  unfolding serialize_keys entries message AllThere
  serialize_keys_lem rt filter left [] there room = refl
  serialize_keys_lem rt filter left (k ∷ ks) there room = elim (Option-cases (H.get rt k)) [
    | inl p ↦ (let no = rw p at there.0 in cc)
    | inr (e, p) ↦
        (let more : ltb 0 left ≡ true = lt→ltb 0 left (omega (arith, room)) in
          elim (Bool-cases (e.next_hop == filter)) [
            | inl q ↦
                rw (p, serialize_keys, entries)
                  (rw (q, more)
                    (serialize_keys_lem rt filter left ks there.1 (omega (arith, room))))
            | inr q ↦
                rw (p, serialize_keys, entries)
                  (rw (q, more)
                    (rw
                      (serialize_keys_lem rt filter (left - 20) ks there.1 (omega (arith, room)))))
          ])
  ]

  all_of_keys :
      (rt : Rtable H) (ks : List ℕ)
      → ((j : ℕ) → contains ks j ≡ true → is_some (H.get rt j) ≡ true)
      → AllThere H rt ks
  unfolding AllThere
  all_of_keys rt [] h = tt
  all_of_keys rt (k ∷ ks) h =
      (h k (ground arith), all_of_keys rt ks (λ j e. h j (ground (arith, e))))

  -- What `rtable_serialize` sends: the entries that the filter lets through, one behind the other, and then, up to
  -- 20 bytes for each entry of the table, what `malloc` left in memory. It fails no assert.
  pub rtable_serialize_lem :
      (heap : ℕ → List ℕ) (rt : Rtable H) (filter : ℕ)
      → let sent = message (entries H rt filter (H.keys rt)) in
        rtable_serialize H heap rt filter
        ≡ some (sent ++ drop (length sent) (heap (20 * length (H.keys rt))))
  unfolding rtable_serialize
  rtable_serialize_lem heap rt filter =
      let there = all_of_keys rt (H.keys rt) (λ j e. sym (H.contains-keys rt j) ∙ e) in
      rw (H.ht_size-keys rt) (
        rw (serialize_keys_lem rt filter (20 * length (H.keys rt)) (H.keys rt) there (omega arith)))

  -- A table with entries put into it, one after the other.
  stored : Rtable H → List Entry → Rtable H
  stored rt [] = rt
  stored rt (e ∷ es) = stored (rtable_put H rt e) es

  AllEntries : List Entry → Type 0
  AllEntries [] = Unit {0}
  AllEntries (e ∷ es) = IsEntry e × AllEntries es

  unserialize_loop_lem :
      (fuel : ℕ) (es : List Entry) (rest : List ℕ) (rt : Rtable H)
      → 20 * length es ≤ fuel
      → AllEntries es
      → unserialize_loop H fuel (message es ++ rest) (20 * length es) rt ≡ some (stored rt es)
  unfolding unserialize_loop message stored AllEntries
  unserialize_loop_lem zero [] rest rt room all = refl
  unserialize_loop_lem (suc fuel) [] rest rt room all = refl
  unserialize_loop_lem zero (e ∷ es) rest rt room all = absurd (omega (arith, room))
  unserialize_loop_lem (suc fuel) (e ∷ es) rest rt room all =
      let (front, back) = entry_unserialize-serialize e (message es ++ rest) all.0 in
      let more : (20 * suc (length es) == 0) ≡ false = ==_ne _ 0 (λ z. omega (arith, z)) in
      let left : 20 * suc (length es) - 20 ≡ 20 * length es = omega arith in
      ap (λ b. unserialize_loop H (suc fuel) b (20 * suc (length es)) rt)
        (append_assoc (entry_serialize e) (message es) rest)
      ∙ (rw (more, unserialize_loop)
          (rw (front, back, left)
            (unserialize_loop_lem fuel es rest (rtable_put H rt e) (omega (arith, room)) all.1)))

  get-stored :
      (rt t : Rtable H) (filter : ℕ) (ks : List ℕ) (j : ℕ)
      → Keyed H rt
      → AllThere H rt ks
      → ((k : ℕ) (e : Entry) → H.get rt k ≡ some e → (e.next_hop == filter) ≡ false)
      → H.get (stored t (entries H rt filter ks)) j
        ≡ (if contains ks j then H.get rt j else H.get t j)
  unfolding stored entries AllThere rtable_put
  get-stored rt t filter [] j keyed there open' = refl
  get-stored rt t filter (k ∷ ks) j keyed there open' = elim (Option-cases (H.get rt k)) [
    | inl p ↦ (let no = rw p at there.0 in cc)
    | inr (e, p) ↦
        (let rest = get-stored rt (H.put t e.addr e) filter ks j keyed there.1 open' in
          rw (p, entries)
            (rw (open' k e p) (rest ∙ ground (arith, H.get-put t e.addr e j, keyed k e p, p))))
  ]

  AllEntries-entries :
      (rt : Rtable H) (filter : ℕ) (ks : List ℕ)
      → ((k : ℕ) (e : Entry) → H.get rt k ≡ some e → IsEntry e)
      → AllEntries (entries H rt filter ks)
  unfolding AllEntries entries
  AllEntries-entries rt filter [] small = tt
  AllEntries-entries rt filter (k ∷ ks) small = elim (Option-cases (H.get rt k)) [
    | inl p ↦ rw (p, entries) (AllEntries-entries rt filter ks small)
    | inr (e, p) ↦ elim (Bool-cases (e.next_hop == filter)) [
      | inl q ↦ rw (p, entries) (rw q (AllEntries-entries rt filter ks small))
      | inr q ↦ rw (p, entries) (rw q (small k e p, AllEntries-entries rt filter ks small))
    ]
  ]

  length-entries :
      (rt : Rtable H) (filter : ℕ) (ks : List ℕ)
      → AllThere H rt ks
      → ((k : ℕ) (e : Entry) → H.get rt k ≡ some e → (e.next_hop == filter) ≡ false)
      → length (entries H rt filter ks) ≡ length ks
  unfolding entries AllThere
  length-entries rt filter [] there open' = refl
  length-entries rt filter (k ∷ ks) there open' = elim (Option-cases (H.get rt k)) [
    | inl p ↦ (let no = rw p at there.0 in cc)
    | inr (e, p) ↦
        rw (p, entries) (rw (open' k e p) (ap suc (length-entries rt filter ks there.1 open')))
  ]

  -- A table whose routes stand under their own addresses and have 32-bit fields, and in which no route's next hop
  -- is the filter, goes out whole: `rtable_serialize` makes a message of 20 bytes for each route, and the
  -- `rtable_unserialize` of any node makes of that message a table that has the same route, or none, for every address.
  pub rtable_unserialize-serialize :
      (heap : ℕ → List ℕ) (rt : Rtable H) (filter : ℕ)
      → ((n : ℕ) → length (heap n) ≡ n)
      → Keyed H rt
      → ((k : ℕ) (e : Entry) → H.get rt k ≡ some e → IsEntry e)
      → ((k : ℕ) (e : Entry) → H.get rt k ≡ some e → e.next_hop ≢ filter)
      → (bytes : List ℕ) × (rtable_serialize H heap rt filter ≡ some bytes)
        × (length bytes ≡ 20 * H.ht_size rt)
        × (rt' : Rtable H) × (rtable_unserialize H bytes (length bytes) ≡ some rt')
        × ((j : ℕ) → H.get rt' j ≡ H.get rt j)
  unfolding rtable_unserialize rtable_new
  rtable_unserialize-serialize heap rt filter size keyed small apart =
      let ks = H.keys rt in
      let es = entries H rt filter ks in
      let open' =
        λ (k : ℕ) (e : Entry) (p : H.get rt k ≡ some e). ==_ne e.next_hop filter (apart k e p) in
      let there = all_of_keys rt ks (λ j e. sym (H.contains-keys rt j) ∙ e) in
      let n = length-message es in
      let m = length-entries rt filter ks there open' in
      (
        message es,
        rtable_serialize_lem heap rt filter
            ∙ ap (λ l. some (message es ++ l))
                (drop_all (heap (20 * length ks)) (length (message es))
                  (omega (arith, n, m, size (20 * length ks))))
            ∙ ap some (append-nil (message es)),
        rw (H.ht_size-keys rt) (omega (arith, n, m)),
        stored H.empty es,
        ap (λ k. unserialize_loop H k (message es) k H.empty) n
            ∙ ap (λ b. unserialize_loop H (20 * length es) b (20 * length es) H.empty)
                (sym (append-nil (message es)))
            ∙ unserialize_loop_lem (20 * length es) es [] H.empty (omega arith)
                (AllEntries-entries rt filter ks small),
        λ j.
            get-stored rt H.empty filter ks j keyed there open'
            ∙ ground (arith, H.contains-keys rt j, H.get-empty {A = Entry} j),
      )
