-- ===== src/Raft/Quorum.antt =====
-- src/raft.c, `member_count`, `majority`, `raft_change_config`: majorities meet, also across a
-- change of one member.
use Prim.Native.Nat.{bit_xor}
use db_hobby.Base.{
  ℕ, zero, suc, ◌+◌, ◌/◌, ◌%◌, ◌^◌, ◌≤◌, ◌<◌, ◌≡◌, refl, ◌⊎◌, inl, inr, Bool, true, ◌&&◌, ◌||◌,
  List, [], ◌∷◌, ◌∙◌, u32_mod, arith, ◌==◌, if◌then◌else◌, Bool-cases, ==_iff, some,
}
use db_hobby.Raft.Types.{Raft, all_nodes}
use db_hobby.Raft.Log.{
  log_append, maybe_adopt_config, raft_last_log_index, count_bits, member_count, majority,
  raft_is_member,
}
use db_hobby.Raft.Commit.{count_where}
use db_hobby.Raft.Lead.{
  is_one_bit, raft_change_config, start_new_peer, start_new_peers, own_match, config_entry,
}

-- Over a small range, every value is checked by evaluation.
every_mask : (ℕ → Bool) → ℕ → Bool
every_mask test zero = true
every_mask test (suc bound) = let lower = every_mask test bound in lower && test bound

test_of_mask :
    (test : ℕ → Bool) (bound : ℕ) {mask : ℕ}
    → mask < bound
    → every_mask test bound ≡ true
    → test mask ≡ true
unfolding every_mask
test_of_mask test zero small h = absurd (omega arith)
test_of_mask test (suc bound) {mask} small h =
    ground (arith, λ (q : mask < bound). test_of_mask test bound q)

abbrev pub has_bit : ℕ → ℕ → Bool
has_bit m i = (m / 2 ^ i) % 2 == 1

count_table : every_mask (λ m. count_bits 32 m 0 == count_where (has_bit m) all_nodes) 128 ≡ true
unfolding every_mask count_bits count_where
count_table = refl

-- The loop `m &= m - 1` counts the members of the mask, for a mask of RAFT_MAX_NODES bits.
pub member_count-count_where :
    (r : Raft) → r.member_mask < 128 → member_count r ≡ count_where (raft_is_member r) all_nodes
unfolding member_count raft_is_member
member_count-count_where r h = (==_iff _ _).0 (test_of_mask _ 128 h count_table)

module _ (p q : ℕ → Bool) where
  abbrev pub both : ℕ → Bool
  both i = p i && q i

  abbrev pub either : ℕ → Bool
  either i = p i || q i

  count-both :
      (is : List ℕ)
      → count_where p is + count_where q is ≡ count_where either is + count_where both is
  unfolding count_where
  count-both [] = refl
  count-both (i ∷ is) = ground (arith, count-both is)

  count-le :
      ((i : ℕ) → p i ≡ true → q i ≡ true) → (is : List ℕ) → count_where p is ≤ count_where q is
  unfolding count_where
  count-le h [] = omega arith
  count-le h (i ∷ is) = ground (arith, h i, count-le h is)

count-some : (p : ℕ → Bool) (is : List ℕ) → 0 < count_where p is → (i : ℕ) × (p i ≡ true)
unfolding count_where
count-some p [] h = absurd (omega arith)
count-some p (i ∷ is) h = elim (Bool-cases (p i)) [
  | inl y ↦ (i, y)
  | inr n ↦ count-some p is (ground arith)
]

-- Two sets of members that are majorities have a node in common.
pub quorums_meet :
    (r : Raft) (p q : ℕ → Bool)
    → r.member_mask < 128
    → ((i : ℕ) → p i ≡ true → raft_is_member r i ≡ true)
    → ((i : ℕ) → q i ≡ true → raft_is_member r i ≡ true)
    → majority r ≤ count_where p all_nodes
    → majority r ≤ count_where q all_nodes
    → (i : ℕ) × (p i ≡ true) × (q i ≡ true)
unfolding majority
quorums_meet r p q small inside_p inside_q enough_p enough_q =
    let members = member_count-count_where r small in
    let union =
      count-le (either p q) (raft_is_member r) (λ i h. ground (arith, inside_p i, inside_q i))
        all_nodes in
    let (i, h) = count-some (both p q) all_nodes (omega (arith, count-both p q all_nodes)) in
    (i, ground arith, ground arith)

either_mono :
    (p q p' q' : ℕ → Bool) (i : ℕ)
    → (p i ≡ true → p' i ≡ true)
    → (q i ≡ true → q' i ≡ true)
    → either p q i ≡ true
    → either p' q' i ≡ true
either_mono p q p' q' i a b h = ground arith

-- Masks that differ in one bit: the union has no more members than the larger one.
abbrev change_test : ℕ → ℕ → Bool
change_test m m' =
    if is_one_bit (bit_xor m m')
    then (let a = count_where (has_bit m) all_nodes in
        let b = count_where (has_bit m') all_nodes in
        let u = count_where (either (has_bit m) (has_bit m')) all_nodes in
        (a == b + 1 && u == a) || (b == a + 1 && u == b))
    else true

change_table : every_mask (λ m. every_mask (change_test m) 128) 128 ≡ true
unfolding every_mask is_one_bit count_where
change_table = refl

module _ (m m' : ℕ) where
  change_sizes :
      m < 128
      → m' < 128
      → is_one_bit (bit_xor m m') ≡ true
      → ((count_where (has_bit m) all_nodes ≡ count_where (has_bit m') all_nodes + 1)
          × (count_where (either (has_bit m) (has_bit m')) all_nodes
              ≡ count_where (has_bit m) all_nodes))
        ⊎ ((count_where (has_bit m') all_nodes ≡ count_where (has_bit m) all_nodes + 1)
            × (count_where (either (has_bit m) (has_bit m')) all_nodes
                ≡ count_where (has_bit m') all_nodes))
  change_sizes a b one =
      let t =
        test_of_mask (change_test m) 128 b
          (test_of_mask (λ k. every_mask (change_test k) 128) 128 a change_table) in
      ground arith

  masks_meet :
      (p q : ℕ → Bool)
      → m < 128
      → m' < 128
      → is_one_bit (bit_xor m m') ≡ true
      → ((i : ℕ) → p i ≡ true → has_bit m i ≡ true)
      → ((i : ℕ) → q i ≡ true → has_bit m' i ≡ true)
      → count_where (has_bit m) all_nodes / 2 + 1 ≤ count_where p all_nodes
      → count_where (has_bit m') all_nodes / 2 + 1 ≤ count_where q all_nodes
      → (i : ℕ) × (p i ≡ true) × (q i ≡ true)
  masks_meet p q a b one inside_p inside_q enough_p enough_q =
      let union =
        count-le (either p q) (either (has_bit m) (has_bit m'))
          (λ i h. either_mono p q (has_bit m) (has_bit m') i (inside_p i) (inside_q i) h)
          all_nodes in
      let sizes = change_sizes a b one in
      let (i, h) = count-some (both p q) all_nodes (omega (arith, count-both p q all_nodes)) in
      (i, ground arith, ground arith)

start_new_peer-mask : (m i : ℕ) (r : Raft) → (start_new_peer m i r).member_mask ≡ r.member_mask
unfolding start_new_peer
start_new_peer-mask m i r = ground arith

start_new_peers-mask :
    (m : ℕ) (is : List ℕ) (r : Raft) → (start_new_peers m is r).member_mask ≡ r.member_mask
unfolding start_new_peers
start_new_peers-mask m [] r = refl
start_new_peers-mask m (i ∷ is) r =
    start_new_peers-mask m is (start_new_peer m i r) ∙ start_new_peer-mask m i r

change_config-some :
    (alloc : ℕ → Bool) (r : Raft) (new_mask i : ℕ)
    → (raft_change_config alloc r new_mask).1 ≡ some i
    → (is_one_bit (bit_xor r.member_mask new_mask) ≡ true)
      × ((raft_change_config alloc r new_mask).0.member_mask ≡ new_mask % u32_mod)
unfolding raft_change_config log_append maybe_adopt_config
change_config-some alloc r new_mask i h =
    let a = (log_append alloc r (config_entry r new_mask)).0 in
    let b : Raft = record (own_match a) { pending_config_index = some (raft_last_log_index a) } in
    ground (arith, start_new_peers-mask new_mask all_nodes b)

-- Where `raft_change_config` accepts a new mask, every majority of the old members and every
-- majority of the new ones have a node in common. The masks have RAFT_MAX_NODES bits.
pub change_quorums_meet :
    (alloc : ℕ → Bool) (r : Raft) (new_mask i : ℕ) (p q : ℕ → Bool)
    → r.member_mask < 128
    → new_mask < 128
    → (raft_change_config alloc r new_mask).1 ≡ some i
    → ((j : ℕ) → p j ≡ true → raft_is_member r j ≡ true)
    → ((j : ℕ) → q j ≡ true → raft_is_member (raft_change_config alloc r new_mask).0 j ≡ true)
    → majority r ≤ count_where p all_nodes
    → majority (raft_change_config alloc r new_mask).0 ≤ count_where q all_nodes
    → (j : ℕ) × (p j ≡ true) × (q j ≡ true)
unfolding majority raft_is_member count_where
change_quorums_meet alloc r new_mask i p q small small' accepted inside_p inside_q enough_p
      enough_q =
    let r' = (raft_change_config alloc r new_mask).0 in
    let (one, masked) = change_config-some alloc r new_mask i accepted in
    let mask' : r'.member_mask ≡ new_mask = omega arith in
    let old = member_count-count_where r small in
    let new = member_count-count_where r' (omega arith) in
    masks_meet r.member_mask new_mask p q small small' one inside_p
      (λ j h. rw mask' at (inside_q j h)) (rw old at enough_p) (rw mask' at (rw new at enough_q))
