-- ===== src/Net/Arp/Cache.antt =====
-- The ARP cache is a bounded map from addresses to MACs.
use gecko_os_mac_compatabili.Common.{
  ℕ, suc, ◌≡◌, inl, inr, refl, ap, Bool, true, false, List, [], ◌∷◌, Option, none, some, ◌==◌, ◌&&◌,
  if◌then◌else◌, arith, length, Bool-cases, Option-cases,
}
use gecko_os_mac_compatabili.Net.Host.{Host, ArpEntry}
use gecko_os_mac_compatabili.Net.Arp.{
  replace_entry, insert_entry, learn, find_mac, arp_resolve, arp_handle, answer_request,
  arp_request,
}

-- Some entry is not in use.
pub has_room : List ArpEntry → Bool
has_room [] = false
has_room (e ∷ cache) = if e.valid then has_room cache else true

-- What an address that is learnt resolves to: nothing if it was unknown and no entry was unused.
pub answer_learnt : List ℕ → Option (List ℕ) → Bool → Option (List ℕ)
answer_learnt mac (some old) room = some mac
answer_learnt mac none room = if room then some mac else none

abbrev pub Learnt : ℕ → List ℕ → List ArpEntry → List ArpEntry → Type 0
Learnt ip mac cache new =
    (length new ≡ length cache)
    × ((j : ℕ)
        → find_mac j new ≡ (
            if ip == j
            then answer_learnt mac (find_mac ip cache) (has_room cache)
            else find_mac j cache))

replace_entry-none :
    (ip : ℕ) (mac : List ℕ) (cache : List ArpEntry)
    → replace_entry ip mac cache ≡ none
    → find_mac ip cache ≡ none
unfolding replace_entry find_mac
replace_entry-none ip mac [] h = refl
replace_entry-none ip mac (e ∷ cache) h = ground (arith, replace_entry-none ip mac cache)

find_mac-replace_entry :
    (ip : ℕ) (mac : List ℕ) (cache new : List ArpEntry) (j : ℕ)
    → replace_entry ip mac cache ≡ some new
    → (find_mac j new ≡ (if ip == j then some mac else find_mac j cache))
      × ((m : List ℕ) × (find_mac ip cache ≡ some m))
      × (length new ≡ length cache)
unfolding replace_entry find_mac
find_mac-replace_entry ip mac [] new j h = cc
find_mac-replace_entry ip mac (e ∷ cache) new j h =
    elim (Option-cases (replace_entry ip mac cache)) [
      | inl miss ↦ elim (Bool-cases (e.valid && e.ip == ip)) [
        | inl hit ↦ hit_case hit
        | inr other ↦ absurd (ground (arith, other, miss))
      ]
      | inr (rest, found) ↦ elim (Bool-cases (e.valid && e.ip == ip)) [
        | inl hit ↦ hit_case hit
        | inr other ↦
            let same : new ≡ e ∷ rest = ground (arith, other, found) in
            let (answers, (m, known), size) = find_mac-replace_entry ip mac cache rest j found in
            rw same (ground (arith, answers), (m, rw (other) known), ap suc size)
      ]
    ]
  where
    hit_case :
        (e.valid && e.ip == ip) ≡ true
        → (find_mac j new ≡ (if ip == j then some mac else find_mac j (e ∷ cache)))
          × ((m : List ℕ) × (find_mac ip (e ∷ cache) ≡ some m))
          × (length new ≡ length (e ∷ cache))
    hit_case hit =
        let same : new ≡ record e { mac = mac } ∷ cache = ground (arith, hit) in
        rw same (ground (arith, hit), (e.mac, rw hit), refl)

find_mac-insert_entry :
    (ip : ℕ) (mac : List ℕ) (cache : List ArpEntry) (j : ℕ)
    → find_mac ip cache ≡ none
    → find_mac j (insert_entry ip mac cache)
      ≡ (if ip == j then (if has_room cache then some mac else none) else find_mac j cache)
unfolding insert_entry find_mac has_room
find_mac-insert_entry ip mac [] j h = ground arith
find_mac-insert_entry ip mac (e ∷ cache) j h = ground (arith, find_mac-insert_entry ip mac cache j)

length-insert_entry :
    (ip : ℕ) (mac : List ℕ) (cache : List ArpEntry)
    → length (insert_entry ip mac cache) ≡ length cache
unfolding insert_entry
length-insert_entry ip mac [] = refl
length-insert_entry ip mac (e ∷ cache) = ground (arith, length-insert_entry ip mac cache)

-- Learning a pair of an address and a MAC, on any cache: the number of entries stays; the
-- address resolves to the MAC if it was in the cache or an entry was unused, and to nothing
-- otherwise; every other address resolves as before.
pub learn_lem :
    (ip : ℕ) (mac : List ℕ) (cache : List ArpEntry) → Learnt ip mac cache (learn ip mac cache)
unfolding learn answer_learnt
learn_lem ip mac cache = elim (Option-cases (replace_entry ip mac cache)) [
  | inl miss ↦
      let fresh = replace_entry-none ip mac cache miss in
      rw (miss, learn)
        (
          length-insert_entry ip mac cache,
          λ j. rw (fresh, answer_learnt) (find_mac-insert_entry ip mac cache j fresh),
        )
  | inr (new, found) ↦
      let (m, known) = (find_mac-replace_entry ip mac cache new ip found).1 in
      rw (found, learn)
        (
          (find_mac-replace_entry ip mac cache new ip found).2,
          λ j. rw (known, answer_learnt) (find_mac-replace_entry ip mac cache new j found).0,
        )
]

-- Resolving reads the cache alone.
pub arp_resolve-cache :
    (h g : Host) (ip : ℕ) → h.arp_cache ≡ g.arp_cache → arp_resolve h ip ≡ arp_resolve g ip
unfolding arp_resolve
arp_resolve-cache h g ip e = ap (find_mac ip) e

-- ARP does not touch the frames to come and the clock.
pub arp_handle_keeps :
    (h : Host) (p : List ℕ) → ((arp_handle h p).rx ≡ h.rx) × ((arp_handle h p).tick ≡ h.tick)
unfolding arp_handle answer_request
arp_handle_keeps h p = ground arith

pub arp_request_keeps :
    (h : Host) (ip : ℕ) → ((arp_request h ip).rx ≡ h.rx) × ((arp_request h ip).tick ≡ h.tick)
unfolding arp_request
arp_request_keeps h ip = (refl, refl)
