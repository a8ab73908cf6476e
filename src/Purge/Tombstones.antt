-- ===== src/Purge/Tombstones.antt =====
-- Memberships and tombstones in purge_locked of src/retention.rs.
use yanuget.Prelude.{
  if◌then◌else◌, Bool, true, not, ◌&&◌, ◌||◌, ◌==◌, List, any, retain, ◌≡◌, inl, inr, Bool-cases,
  arith,
}
use yanuget.Text.{Text, text_eq}
use yanuget.Text.Equal.{text_eq_self}
use yanuget.Store.{Key, same_key, Tombstone, Store, Fate}
use yanuget.Store.Triple.{
  Triple, pure_rule, call_rule, call_keeps, if_rule, >>=_rule, consequence, Ends, Ends-of,
}
use yanuget.Store.Calls.{is_member, add_tombstone, remove_membership_for_good, feed_count}
use yanuget.Purge.Keeps.{IsKeptBy, purge_global_data_keeps}
use yanuget.Purge.{purge_global_data, purge_locked}

-- the feed holds the version, or a tombstone says that it did
abbrev pub is_tombstoned : Text → Key → Store → Bool
is_tombstoned feed key s = any (λ t. text_eq t.feed feed && same_key t.key key) s.tombstones

abbrev pub is_held : Text → Key → Store → Bool
is_held feed key s = any (is_member feed key) s.members

module _ (feed : Text) (key : Key) where
  abbrev pub IsTombstoned : Store → Type 0
  IsTombstoned s = is_tombstoned feed key s ≡ true

  abbrev pub IsHeldOrTombstoned : Store → Type 0
  IsHeldOrTombstoned s = (is_held feed key s || is_tombstoned feed key s) ≡ true

  IsTombstoned-IsKeptBy : IsKeptBy key IsTombstoned
  IsTombstoned-IsKeptBy = record {
    symbol_file = λ n s h. h;
    symbol_rows = λ s h. h;
    blob = λ sha s h. h;
    payload = λ s h. h;
    rows = λ s h. h;
  }

  global-IsTombstoned : Triple IsTombstoned (purge_global_data key) (λ _. IsTombstoned) IsTombstoned
  global-IsTombstoned = purge_global_data_keeps key IsTombstoned IsTombstoned-IsKeptBy

  tombstone-added :
      (ts : List Tombstone)
      → any (λ t. text_eq t.feed feed && same_key t.key key) (add_tombstone feed key ts) ≡ true
  tombstone-added ts = elim (Bool-cases (any (λ t. text_eq t.feed feed && same_key t.key key) ts)) [
    | inl there ↦ rw there there
    | inr new_ ↦
        rw new_ (ground (arith, text_eq_self feed, text_eq_self key.id, text_eq_self key.version))
  ]

  removed-tombstoned :
      (s : Store)
      → IsHeldOrTombstoned s
      → any
          (λ t. text_eq t.feed feed && same_key t.key key)
          (if any (is_member feed key) s.members
            then add_tombstone feed key s.tombstones
            else s.tombstones)
        ≡ true
  removed-tombstoned s h = elim (Bool-cases (any (is_member feed key) s.members)) [
    | inl held ↦ rw held (tombstone-added s.tombstones)
    | inr free ↦ rw free (ground (arith, h, free))
  ]

  tombstoned-or : (s : Store) → IsTombstoned s → IsHeldOrTombstoned s
  tombstoned-or s h = ground (arith, h)

  without_membership : Store → Store
  without_membership s = record s {
    members = retain (λ m. not (is_member feed key m)) s.members;
    tombstones =
        if any (is_member feed key) s.members
        then add_tombstone feed key s.tombstones
        else s.tombstones;
  }

  remove-IsTombstoned :
      Triple IsHeldOrTombstoned
        (remove_membership_for_good feed key)
        (λ _. IsTombstoned)
        IsHeldOrTombstoned
  unfolding remove_membership_for_good
  remove-IsTombstoned = call_rule _ removed-tombstoned (λ s h. (
    h,
    unfold without_membership in tombstoned-or (without_membership s) (removed-tombstoned s h),
  ))

  locked-IsTombstoned :
      Triple IsHeldOrTombstoned (purge_locked feed key) (λ _. IsTombstoned) IsHeldOrTombstoned
  unfolding purge_locked feed_count
  locked-IsTombstoned = >>=_rule remove-IsTombstoned λ removed.
      consequence (λ s h. h) (λ a s h. h) tombstoned-or
        (>>=_rule (call_keeps _ (λ s h. h)) λ feeds.
          if_rule (feeds == 0)
            (λ last. >>=_rule global-IsTombstoned λ _. pure_rule removed (λ s h. h))
            (λ more. pure_rule removed (λ s h. h)))

-- A version that a feed holds, or that it has a tombstone of, is still held by it or has one after a
-- purge from it, whichever calls fail; where the purge answers, it has one.
pub purge_locked-IsTombstoned :
    (feed : Text) (key : Key) (fates : List Fate) (s : Store)
    → IsHeldOrTombstoned feed key s
    → Ends
        (λ removed t. IsTombstoned feed key t)
        (IsHeldOrTombstoned feed key)
        (purge_locked feed key fates s)
purge_locked-IsTombstoned feed key fates s h = Ends-of (locked-IsTombstoned feed key) fates s h
