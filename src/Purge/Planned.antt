-- ===== src/Purge/Planned.antt =====
-- purge_locked of src/retention.rs where other feeds hold the version, and purge_planned where
-- the version changed since it was planned.
use yanuget.Prelude.{
  ℕ, if◌then◌else◌, Bool, true, false, not, ◌&&◌, ◌==◌, Option, none, some, List, [], ◌∷◌, any,
  retain, length, ◌≡◌, ◌⊎◌, inl, inr, refl, sym, ap, subst, Bool-cases, any-retain_kept, arith,
}
use yanuget.Text.{Text, text_eq}
use yanuget.Store.{Key, same_key, Membership, Store, Fate, pure, ◌>>◌}
use yanuget.Store.Triple.{Triple, pure_rule, call_rule, >>=_rule, consequence, store_of}
use yanuget.Store.Total.{answered}
use yanuget.Store.Calls.{
  is_member, first_that, remove_membership_for_good, get_membership, feed_count,
}
use yanuget.Purge.{withheld, purge_global_data, purge_locked, purge_found, purge_planned}

-- A store's data that every feed shares.
abbrev pub Shared : Store → Store → Type 0
Shared s t =
    (t.packages ≡ s.packages)
    × (t.files ≡ s.files)
    × (t.symbols ≡ s.symbols)
    × (t.payloads ≡ s.payloads)
    × (t.blobs ≡ s.blobs)
    × (t.symbol_files ≡ s.symbol_files)

abbrev pub is_held_by_other : Text → Key → Store → Bool
is_held_by_other feed key s = any (λ m. same_key m.key key && not (text_eq m.feed feed)) s.members

abbrev IsHeld : Text → Key → Store → Store → Type 0
IsHeld feed key s t = Shared s t × (is_held_by_other feed key t ≡ true)

count_held :
    (p : Membership → Bool) (ms : List Membership) → length (retain p ms) ≡ 0 → any p ms ≡ false
count_held p [] h = refl
count_held p (m ∷ ms) h = ground (arith, h, count_held p ms)

module _ (feed : Text) (key : Key) where
  kept_by_other :
      (ms : List Membership)
      → any (λ m. same_key m.key key && not (text_eq m.feed feed)) ms ≡ true
      → any
          (λ m. same_key m.key key && not (text_eq m.feed feed))
          (retain (λ m. not (is_member feed key m)) ms)
        ≡ true
  kept_by_other ms = any-retain_kept _ _ ms (λ m. ground arith)

  remove-IsHeld :
      (s : Store)
      → Triple
          (IsHeld feed key s)
          (remove_membership_for_good feed key)
          (λ _. IsHeld feed key s)
          (IsHeld feed key s)
  unfolding remove_membership_for_good
  remove-IsHeld s =
      call_rule _ (λ t h. (h.0, kept_by_other t.members h.1))
        (λ t h. (h, (h.0, kept_by_other t.members h.1)))

  held-counted :
      (ms : List Membership)
      → any (λ m. same_key m.key key && not (text_eq m.feed feed)) ms ≡ true
      → length (retain (λ m. same_key m.key key) ms) == 0 ≡ false
  held-counted [] h = cc
  held-counted (m ∷ ms) h = ground (arith, h, held-counted ms)

  abbrev Counted : Store → ℕ → Store → Type 0
  Counted s feeds t = IsHeld feed key s t × ((feeds == 0) ≡ false)

  count-Counted :
      (s : Store) → Triple (IsHeld feed key s) (feed_count key) (Counted s) (IsHeld feed key s)
  unfolding feed_count
  count-Counted s = call_rule _ (λ t h. (h, held-counted t.members h.1)) (λ t h. (h, h))

  count-continue :
      (s : Store) (removed : Bool) (feeds : ℕ)
      → Triple
          (Counted s feeds)
          (if feeds == 0 then (purge_global_data key >> pure removed) else pure removed)
          (λ _. IsHeld feed key s)
          (IsHeld feed key s)
  count-continue s removed feeds = record { ends = λ fates t w h. rw h.1 (w, h.0) }

  purge_locked-IsHeld :
      (s : Store)
      → Triple
          (IsHeld feed key s)
          (purge_locked feed key)
          (λ _. IsHeld feed key s)
          (IsHeld feed key s)
  unfolding purge_locked
  purge_locked-IsHeld s =
      >>=_rule (remove-IsHeld s) λ removed. >>=_rule (count-Counted s) (count-continue s removed)

-- Where a feed other than the one a version is purged from holds it, the purge changes no data that
-- feeds share, and the other feed still holds it, whichever calls fail.
pub purge_locked-Shared :
    (feed : Text) (key : Key) (fates : List Fate) (s : Store)
    → is_held_by_other feed key s ≡ true
    → Shared s (purge_locked feed key fates s).store
      × (is_held_by_other feed key (purge_locked feed key fates s).store ≡ true)
purge_locked-Shared feed key fates s h =
    store_of (purge_locked-IsHeld feed key s) fates s ((refl, refl, refl, refl, refl, refl), h)

abbrev IsListed : Option Membership → Type 0
IsListed found = (found ≡ none) ⊎ ((m : Membership) × (found ≡ some m) × (withheld m ≡ true))

-- no membership of the feed is pinned, pending or disabled, or there is none
IsListed-planned :
    (feed : Text) (key : Key) (ms : List Membership)
    → any (λ m. is_member feed key m && not (withheld m)) ms ≡ false
    → IsListed (first_that (is_member feed key) ms)
IsListed-planned feed key [] h = inl refl
IsListed-planned feed key (m ∷ ms) h = elim (Bool-cases (is_member feed key m)) [
  | inl member ↦ inr (m, rw member refl, ground (arith, h, member))
  | inr other ↦ rw other (IsListed-planned feed key ms (ground (arith, h, other)))
]

abbrev Gave : {A : Type 0} → Store → A → A → Store → Type 0
Gave s a b t = (t ≡ s) × (b ≡ a)

found-unchanged :
    (feed : Text) (key : Key) (s : Store) (found : Option Membership)
    → IsListed found
    → Triple (λ t. t ≡ s) (purge_found feed key found) (Gave s false) (λ t. t ≡ s)
found-unchanged feed key s found (inl e) = rw e (pure_rule false (λ t h. (h, refl)))
found-unchanged feed key s found (inr (m, e, w)) = rw (e, w) (pure_rule false (λ t h. (h, refl)))

-- Where the feed no longer holds the version, or holds it pinned, pending or disabled, a planned purge
-- changes nothing, whichever calls fail, and where none fails it answers that it removed nothing.
pub purge_planned-unchanged :
    (feed : Text) (key : Key) (s : Store)
    → any (λ m. is_member feed key m && not (withheld m)) s.members ≡ false
    → ((fates : List Fate) → (purge_planned feed key fates s).store ≡ s)
      × (purge_planned feed key [] s ≡ answered false s)
unfolding purge_planned get_membership
purge_planned-unchanged feed key s h = (
  λ fates. store_of (consequence (λ t e. e) (λ a t g. g.0) (λ t e. e) planned) fates s refl,
  answer,
)
  where
    listed : IsListed (first_that (is_member feed key) s.members)
    listed = IsListed-planned feed key s.members h

    answer :
        purge_found feed key (first_that (is_member feed key) s.members) [] s ≡ answered false s
    answer = elim listed [ inl e ↦ rw e refl | inr w ↦ rw (w.1, w.2) refl ]

    planned : Triple (λ t. t ≡ s) (purge_planned feed key) (Gave s false) (λ t. t ≡ s)
    planned =
        >>=_rule {Q = λ found t. (t ≡ s) × (found ≡ first_that (is_member feed key) s.members)}
          {next = purge_found feed key}
          (call_rule _ (λ t e. (e, ap (λ (u : Store). first_that (is_member feed key) u.members) e))
            (λ t e. (e, e)))
          (λ found. record {
            ends = λ fates t w p.
                (found-unchanged feed key s found (subst IsListed (sym p.1) listed)).ends fates t w
                  p.0;
          })
