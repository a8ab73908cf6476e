-- ===== src/Purge/Prune/Withheld.antt =====
-- delete_planned of src/retention.rs and the memberships that are pinned, pending or disabled.
use yanuget.Prelude.{
  ℕ, ◌+◌, Bool, true, false, not, ◌&&◌, ◌||◌, ◌==◌, Option, none, some, List, [], ◌∷◌, any, retain,
  ◌≡◌, inl, inr, refl, sym, subst, Bool-cases, any-retain_kept, arith,
}
use yanuget.Text.{Text}
use yanuget.Store.{Key, same_key, Membership, Store, Io, Fate, Run}
use yanuget.Store.Triple.{
  Triple, Ends, all-Admitted, pure_rule, call_keeps, if_rule, >>=_rule, store_of,
}
use yanuget.Store.Calls.{
  is_member, remove_membership_for_good, get_membership, feed_count, get_package_data, files_for,
  package_data_exists,
}
use yanuget.Purge.{withheld, purge_locked, purge_found, purge_planned}
use yanuget.Purge.Global.{same_key_left}
use yanuget.Purge.Keeps.{IsKeptBy, purge_global_data_keeps}
use yanuget.Purge.Planned.{purge_planned-unchanged}
use yanuget.Purge.Sweep.Orphans.{same_key_right}
use yanuget.Purge.Sweep.{unwrap_or}
use yanuget.Purge.Sweep.Rules.{caught_keeps}
use yanuget.Purge.Prune.{
  Outcome, count_deleted, files_size, attached_bytes, count_purge, package_size, delete_planned,
  delete_all,
}

-- pinned, pending or disabled
abbrev pub held_back : Membership → Bool
held_back m = m.pinned || m.pending || not m.enabled

-- the feed holds the version, pinned, pending or disabled, and not otherwise
abbrev pub IsWithheld : Text → Key → Store → Type 0
IsWithheld feed k s =
    (any (λ m. is_member feed k m && held_back m) s.members ≡ true)
    × (any (λ m. is_member feed k m && not (held_back m)) s.members ≡ false)

still_none :
    (p q : Membership → Bool) (ms : List Membership)
    → any p ms ≡ false
    → any p (retain q ms) ≡ false
still_none p q [] h = refl
still_none p q (m ∷ ms) h = ground (arith, h, still_none p q ms)

-- a computation that keeps each store with `P`
keeps_store :
    {A : Type 0} {P : Store → Type 0} {m : Io A}
    → ((fates : List Fate) (s : Store) → P s → (m fates s).store ≡ s)
    → Triple P m (λ _. P) P
keeps_store {A = A} {P = P} {m = m} f = record {
  ends = λ fates s w p.
      (all-Admitted (m fates s).fates, to_ends (m fates s) (subst P (sym (f fates s p)) p));
}
  where
    of_answer :
        (o : Option A) (left : List Fate) (t : Store)
        → P t
        → Ends (λ (a : A). P) P (record { answer = o; fates = left; store = t })
    of_answer none left t p = p
    of_answer (some a) left t p = p

    to_ends : (run : Run A) → P run.store → Ends (λ (a : A). P) P run
    to_ends run p = of_answer run.answer run.fates run.store p

module _ (feed : Text) (k : Key) where
  abbrev P : Store → Type 0
  P = IsWithheld feed k

  module _ (key : Key) where
    same_members :
        (ms : List Membership)
        → same_key k key ≡ true
        → any (λ m. is_member feed k m && not (held_back m)) ms ≡ false
        → any (λ m. is_member feed key m && not (held_back m)) ms ≡ false
    same_members [] e h = refl
    same_members (m ∷ ms) e h = ground (
      arith,
      h,
      same_members ms e,
      λ (x : same_key m.key key ≡ true). same_key_right m.key key k x e,
    )

    another :
        (m : Membership)
        → same_key k key ≡ false
        → is_member feed k m && held_back m ≡ true
        → not (same_key m.key key) ≡ true
    another m e h = ground (arith, e, h, same_key_left m.key key k, same_key_left m.key k key)

    IsWithheld-IsKeptBy : same_key k key ≡ false → IsKeptBy key P
    IsWithheld-IsKeptBy e = record {
      symbol_file = λ n s h. h;
      symbol_rows = λ s h. h;
      blob = λ sha s h. h;
      payload = λ s h. h;
      rows = λ s h.
          (any-retain_kept _ _ s.members (λ m. another m e) h.0, still_none _ _ s.members h.1);
    }

    stays :
        (m : Membership)
        → same_key k key ≡ false
        → is_member feed k m && held_back m ≡ true
        → not (is_member feed key m) ≡ true
    stays m e h = ground (arith, another m e h)

    remove-IsWithheld :
        same_key k key ≡ false → Triple P (remove_membership_for_good feed key) (λ removed. P) P
    unfolding remove_membership_for_good
    remove-IsWithheld e =
        call_keeps _ (λ s h.
          (any-retain_kept _ _ s.members (λ m. stays m e) h.0, still_none _ _ s.members h.1))

    locked-IsWithheld : same_key k key ≡ false → Triple P (purge_locked feed key) (λ removed. P) P
    unfolding purge_locked feed_count
    locked-IsWithheld e = >>=_rule (remove-IsWithheld e) λ removed.
        >>=_rule (call_keeps _ (λ s h. h)) λ feeds.
          if_rule (feeds == 0)
            (λ last.
              >>=_rule (purge_global_data_keeps key P (IsWithheld-IsKeptBy e))
                λ done. pure_rule removed (λ s h. h))
            (λ more. pure_rule removed (λ s h. h))

    found-IsWithheld :
        same_key k key ≡ false
        → (found : Option Membership) → Triple P (purge_found feed key found) (λ removed. P) P
    found-IsWithheld e none = pure_rule false (λ s h. h)
    found-IsWithheld e (some m) =
        if_rule (withheld m) (λ held. pure_rule false (λ s h. h)) (λ free. locked-IsWithheld e)

    planned-IsWithheld : Triple P (purge_planned feed key) (λ removed. P) P
    unfolding purge_planned get_membership
    planned-IsWithheld = elim (Bool-cases (same_key k key)) [
      | inl same ↦ keeps_store (λ fates s h.
          (purge_planned-unchanged feed key s (same_members s.members same h.1)).0 fates)
      | inr different ↦ >>=_rule (call_keeps _ (λ s h. h)) (found-IsWithheld different)
    ]

    count-IsWithheld :
        (size : ℕ) (outcome : Outcome) (purged : Option Bool)
        → Triple P (count_purge key size outcome purged) (λ o. P) P
    unfolding package_data_exists
    count-IsWithheld size outcome none = pure_rule _ (λ s h. h)
    count-IsWithheld size outcome (some false) = pure_rule outcome (λ s h. h)
    count-IsWithheld size outcome (some true) =
        >>=_rule (caught_keeps (call_keeps _ (λ s h. h)))
          λ exists. pure_rule (count_deleted size outcome (unwrap_or true exists)) (λ s h. h)

    attached-IsWithheld : Triple P (attached_bytes key) (λ n. P) P
    unfolding attached_bytes files_for
    attached-IsWithheld =
        >>=_rule (caught_keeps (call_keeps _ (λ s h. h)))
          λ files. pure_rule (files_size files) (λ s h. h)

    delete_planned-IsWithheld :
        (outcome : Outcome) → Triple P (delete_planned feed key outcome) (λ o. P) P
    unfolding delete_planned get_package_data
    delete_planned-IsWithheld outcome = >>=_rule (caught_keeps (call_keeps _ (λ s h. h))) λ data_.
        >>=_rule attached-IsWithheld λ attached.
          >>=_rule (caught_keeps planned-IsWithheld)
            λ purged. count-IsWithheld (package_size data_ + attached) outcome purged

  delete_all_kept :
      (plan : List Key) (stops : List Bool) (outcome : Outcome)
      → Triple P (delete_all feed plan stops outcome) (λ o. P) P
  unfolding delete_all
  delete_all_kept [] stops outcome = pure_rule outcome (λ s h. h)
  delete_all_kept (key ∷ plan) [] outcome =
      >>=_rule (delete_planned-IsWithheld key outcome) (delete_all_kept plan [])
  delete_all_kept (key ∷ plan) (true ∷ stops) outcome = pure_rule outcome (λ s h. h)
  delete_all_kept (key ∷ plan) (false ∷ stops) outcome =
      >>=_rule (delete_planned-IsWithheld key outcome) (delete_all_kept plan stops)

-- A version that the feed holds pinned, pending or disabled, and not otherwise, is held that way after
-- the deletion of any plan, wherever it stops and whichever calls fail.
pub delete_all-IsWithheld :
    (feed : Text) (k : Key) (plan : List Key) (stops : List Bool) (outcome : Outcome)
    (fates : List Fate) (s : Store)
    → IsWithheld feed k s
    → IsWithheld feed k (delete_all feed plan stops outcome fates s).store
delete_all-IsWithheld feed k plan stops outcome fates s h =
    store_of (delete_all_kept feed k plan stops outcome) fates s h
