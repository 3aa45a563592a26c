-- ===== src/Steng/ChangeBus/Listening.antt =====
-- Who is told of a change: subscribing, and taking a subscription back.
use mathlib.Core.List.{map-append}
use netab.Common.{
  ℕ, suc, ◌<◌, ◌≤◌, List, [], ◌∷◌, ◌++◌, some, ◌≡◌, ◌≢◌, ap, ◌∙◌, arith, nat_eq, equals-cases,
  Bool-cases, All-append, inl, inr, keep-append, if◌then◌else◌, get, set, get-set, get-delete,
  get-set_self, get-set_ne, Option-cases, All, ◌==◌,
}
use netab.Steng.Types.{Filter, ChangeEvent}
use netab.Steng.ChangeBus.{
  ChangeBus, Subscriber, new_bus, members, bucket_of, subscribe, unsubscribe, remove_subscriber,
  shrink, listeners, publish, wants,
}

-- Each reference and each number that is in use was handed out, and no two tables share a bucket.
pub record IsSound (bus : ChangeBus) : Type 0 where
  pub mapped : (t r : ℕ) → get t bus.subscribers ≡ some r → r < bus.next_ref
  pub stored : (r : ℕ) (subs : List Subscriber) → get r bus.buckets ≡ some subs → r < bus.next_ref
  pub numbered : (r : ℕ) → All (λ s. s.id < bus.next_ref) (members bus r)
  pub apart : (t u r : ℕ) → get t bus.subscribers ≡ some r → get u bus.subscribers ≡ some r → t ≡ u

pub new_bus-IsSound : IsSound new_bus
unfolding new_bus get members
new_bus-IsSound = record {
  mapped = λ t r h. cc;
  stored = λ r subs h. cc;
  numbered = λ r. tt;
  apart = λ t u r h k. cc;
}

abbrev pub me_of : ChangeBus → Filter → Subscriber
me_of bus filter = record { id = suc bus.next_ref; filter = filter }

pub members_fresh : (bus : ChangeBus) → IsSound bus → members bus bus.next_ref ≡ []
unfolding members
members_fresh bus h = grind (arith, h.stored bus.next_ref)

members-bucket_of :
    (bus : ChangeBus) (t : ℕ) → IsSound bus → members bus (bucket_of bus t) ≡ listeners bus t
unfolding bucket_of listeners
members-bucket_of bus t h = ground (arith, members_fresh bus h)

module _ (t : ℕ) (f : Filter) (bus : ChangeBus) (h : IsSound bus) where
  abbrev pub ref : ℕ
  ref = bucket_of bus t

  abbrev pub joined : List Subscriber
  joined = members bus ref ++ me_of bus f ∷ []

  -- A new subscriber hears its table's changes after those who were there.
  pub listeners-subscribe : listeners (subscribe t f bus).1 t ≡ listeners bus t ++ me_of bus f ∷ []
  unfolding subscribe
  listeners-subscribe = rw (← members-bucket_of bus t h) (
      unfold listeners members in
      ground (arith, get-set_self t ref bus.subscribers, get-set_self ref joined bus.buckets))

  bucket_of-apart : (u r : ℕ) → t ≢ u → get u bus.subscribers ≡ some r → ref ≢ r
  unfolding bucket_of
  bucket_of-apart u r differ e = ground (arith, h.mapped u r e, h.apart t u r)

  -- The other tables' listeners are not touched.
  pub listeners-subscribe_ne : (u : ℕ) → t ≢ u → listeners (subscribe t f bus).1 u ≡ listeners bus u
  unfolding subscribe listeners members
  listeners-subscribe_ne u differ = elim (Option-cases (get u bus.subscribers)) [
    | inl e ↦ ground (arith, get-set_ne t u ref bus.subscribers differ)
    | inr (r, e) ↦ ground (
      arith,
      get-set_ne t u ref bus.subscribers differ,
      get-set_ne ref r joined bus.buckets (bucket_of-apart u r differ e),
    )
  ]

  -- On a sound bus, an event for a table on which one more callback is subscribed is delivered as
  -- it was without it, and then to the new callback, if the event is one that its filter wants.
  pub publish-subscribe :
      (evt : ChangeEvent)
      → publish t evt (subscribe t f bus).1
        ≡ publish t evt bus
          ++ (if wants evt (me_of bus f)
              then record { subscriber = suc bus.next_ref; event = evt } ∷ []
              else [])
  unfolding publish
  publish-subscribe evt =
      rw
        (
          listeners-subscribe,
          keep-append (wants evt) (listeners bus t) (me_of bus f ∷ []),
          map-append,
        )
        (ground arith)

  pub members-subscribe :
      (r : ℕ) → members (subscribe t f bus).1 r ≡ (if ref == r then joined else members bus r)
  unfolding subscribe members
  members-subscribe r = ground (arith, get-set ref r joined bus.buckets)

All-mono :
    {m n : ℕ} (subs : List Subscriber) → m ≤ n → All (λ s. s.id < m) subs → All (λ s. s.id < n) subs
All-mono [] le h = tt
All-mono (s ∷ subs) le h = (omega arith, All-mono subs le h.1)

remove_subscriber_new :
    (me : ℕ) (subs : List Subscriber) (f : Filter)
    → All (λ s. s.id < me) subs
    → remove_subscriber me (subs ++ record { id = me; filter = f } ∷ []) ≡ subs
unfolding remove_subscriber
remove_subscriber_new me [] f h = ground arith
remove_subscriber_new me (s ∷ subs) f h = ground (arith, remove_subscriber_new me subs f h.1)

module _ (t : ℕ) (f : Filter) (bus : ChangeBus) (h : IsSound bus) where
  numbered-subscribe :
      (r : ℕ) → All (λ s. s.id < suc (suc bus.next_ref)) (members (subscribe t f bus).1 r)
  numbered-subscribe r = elim (Bool-cases (ref t f bus h == r)) [
    | inl same ↦
        rw (members-subscribe t f bus h r, same)
          (All-append _ (members bus (ref t f bus h)) _
            (All-mono _ (omega arith) (h.numbered (ref t f bus h))) (omega arith))
    | inr other ↦
        rw (members-subscribe t f bus h r, other) (All-mono _ (omega arith) (h.numbered r))
  ]

  -- Subscribing keeps a bus sound: references and numbers in use were handed out, and no two tables
  -- share a bucket.
  pub subscribe-IsSound : IsSound (subscribe t f bus).1
  unfolding subscribe bucket_of
  subscribe-IsSound = record {
    mapped = λ u r e. ground (
      arith,
      get-set t u (bucket_of bus t) bus.subscribers,
      h.mapped u r,
      h.mapped t (bucket_of bus t),
    );
    stored = λ r subs e. ground (
      arith,
      get-set (bucket_of bus t) r (joined t f bus h) bus.buckets,
      h.stored r subs,
      h.mapped t (bucket_of bus t),
    );
    numbered = numbered-subscribe;
    apart = λ u v r e k. ground (
      arith,
      get-set t u (bucket_of bus t) bus.subscribers,
      get-set t v (bucket_of bus t) bus.subscribers,
      h.mapped u r,
      h.mapped v r,
      h.apart t u r,
      h.apart t v r,
      h.apart u v r,
    );
  }

  pub remove-joined :
      remove_subscriber (suc bus.next_ref) (joined t f bus h) ≡ members bus (ref t f bus h)
  remove-joined =
      remove_subscriber_new (suc bus.next_ref) (members bus (ref t f bus h)) f
        (All-mono _ (omega arith) (h.numbered (ref t f bus h)))

  entry-shrink_ne :
      (u : ℕ) (left : List Subscriber)
      → t ≢ u
      → get u (shrink (subscribe t f bus).0 left (subscribe t f bus).1).subscribers
        ≡ get u bus.subscribers
  unfolding shrink subscribe
  entry-shrink_ne u [] differ = ground (
    arith,
    get-delete t u (set t (ref t f bus h) bus.subscribers),
    get-set_ne t u (ref t f bus h) bus.subscribers differ,
  )
  entry-shrink_ne u (s ∷ left) differ = get-set_ne t u (ref t f bus h) bus.subscribers differ

  members-shrink_ne :
      (r : ℕ) (left : List Subscriber)
      → ref t f bus h ≢ r
      → members (shrink (subscribe t f bus).0 left (subscribe t f bus).1) r ≡ members bus r
  unfolding shrink subscribe members
  members-shrink_ne r left differ = ground (
    arith,
    get-set_ne (ref t f bus h) r left (set (ref t f bus h) (joined t f bus h) bus.buckets) differ,
    get-set_ne (ref t f bus h) r (joined t f bus h) bus.buckets differ,
  )

  listeners-shrink_ne :
      (u : ℕ) (left : List Subscriber)
      → t ≢ u
      → listeners (shrink (subscribe t f bus).0 left (subscribe t f bus).1) u ≡ listeners bus u
  unfolding listeners
  listeners-shrink_ne u left differ = elim (Option-cases (get u bus.subscribers)) [
    | inl e ↦ ground (arith, entry-shrink_ne u left differ)
    | inr (r, e) ↦ ground (
      arith,
      entry-shrink_ne u left differ,
      members-shrink_ne r left (bucket_of-apart t f bus h u r differ e),
    )
  ]

  listeners-shrink_self :
      (left : List Subscriber)
      → listeners (shrink (subscribe t f bus).0 left (subscribe t f bus).1) t ≡ left
  unfolding shrink subscribe listeners members
  listeners-shrink_self [] = ground (arith, get-delete t t (set t (ref t f bus h) bus.subscribers))
  listeners-shrink_self (s ∷ left) = ground (
    arith,
    get-set_self t (ref t f bus h) bus.subscribers,
    get-set_self (ref t f bus h) (s ∷ left) (set (ref t f bus h) (joined t f bus h) bus.buckets),
  )

  pub members-subscribe_self : members (subscribe t f bus).1 (ref t f bus h) ≡ joined t f bus h
  members-subscribe_self = ground (arith, members-subscribe t f bus h (ref t f bus h))

  -- Taking the new subscription back leaves every table with the listeners that it had.
  pub listeners-unsubscribe :
      (u : ℕ)
      → listeners (unsubscribe (subscribe t f bus).0 (subscribe t f bus).1) u ≡ listeners bus u
  unfolding unsubscribe subscribe
  listeners-unsubscribe u = elim (equals-cases t u) [
    | inl (_, e) ↦ rw (← e) (
        listeners-shrink_self _
        ∙ ap (remove_subscriber (suc bus.next_ref)) members-subscribe_self
        ∙ remove-joined
        ∙ members-bucket_of bus t h)
    | inr (_, differ) ↦ listeners-shrink_ne u _ differ
  ]

  -- On a sound bus, if a new subscription is taken back, every event for any table is delivered as
  -- if nobody had subscribed.
  pub publish-unsubscribe :
      (u : ℕ) (evt : ChangeEvent)
      → publish u evt (unsubscribe (subscribe t f bus).0 (subscribe t f bus).1) ≡ publish u evt bus
  unfolding publish
  publish-unsubscribe u evt = rw (listeners-unsubscribe u)
