-- ===== src/Steng/ChangeBus/Unsubscribe.antt =====
-- An unsubscribe closure that is called a second time.
use netab.Common.{
  ℕ, suc, subst, ◌<◌, List, [], ◌∷◌, ◌++◌, none, some, ◌≡◌, refl, sym, ap, ◌∙◌, arith, nat_eq, get,
  set, get-set, get-delete, get-set_self, All, ◌==◌, if◌then◌else◌, Bool-cases, inl, inr,
}
use netab.Steng.Types.{Filter, ChangeEvent}
use netab.Steng.ChangeBus.{
  ChangeBus, Subscriber, Unsub, members, bucket_of, subscribe, unsubscribe, shrink,
  remove_subscriber, listeners, publish,
}
use netab.Steng.ChangeBus.Listening.{
  IsSound, me_of, joined, members-subscribe, remove-joined, members-subscribe_self,
  subscribe-IsSound, members_fresh, listeners-subscribe, listeners-unsubscribe,
}

All-remove :
    (n me : ℕ) (subs : List Subscriber)
    → All (λ s. s.id < n) subs
    → All (λ s. s.id < n) (remove_subscriber me subs)
unfolding remove_subscriber
All-remove n me [] h = tt
All-remove n me (s ∷ subs) h = ground (arith, All-remove n me subs h.1)

module _ (u : Unsub) (bus : ChangeBus) (h : IsSound bus) (issued : u.bucket < bus.next_ref) where
  mapped-shrink :
      (left : List Subscriber) (t r : ℕ)
      → get t (shrink u left bus).subscribers ≡ some r
      → get t bus.subscribers ≡ some r
  unfolding shrink
  mapped-shrink [] t r e = ground (arith, get-delete u.table_id t bus.subscribers)
  mapped-shrink (s ∷ left) t r e = e

  members-shrink :
      (left : List Subscriber) (r : ℕ)
      → members (shrink u left bus) r ≡ (if u.bucket == r then left else members bus r)
  unfolding shrink members
  members-shrink left r = ground (arith, get-set u.bucket r left bus.buckets)

  shrink-IsSound :
      (left : List Subscriber) → All (λ s. s.id < bus.next_ref) left → IsSound (shrink u left bus)
  unfolding shrink
  shrink-IsSound left k = record {
    mapped = λ t r e. h.mapped t r (mapped-shrink left t r e);
    stored = λ r subs e. ground (arith, get-set u.bucket r left bus.buckets, h.stored r subs);
    numbered = numbered;
    apart = λ t v r e d. h.apart t v r (mapped-shrink left t r e) (mapped-shrink left v r d);
  }
    where
      numbered : (r : ℕ) → All (λ s. s.id < bus.next_ref) (members (shrink u left bus) r)
      numbered r = elim (Bool-cases (u.bucket == r)) [
        | inl same ↦ rw (members-shrink left r, same) k
        | inr other ↦ rw (members-shrink left r, other) (h.numbered r)
      ]

  -- A call of a closure whose bucket was handed out keeps a sound bus sound, the first call or any
  -- later one.
  pub unsubscribe-IsSound : IsSound (unsubscribe u bus)
  unfolding unsubscribe
  unsubscribe-IsSound =
      shrink-IsSound _
        (All-remove bus.next_ref u.subscriber (members bus u.bucket) (h.numbered u.bucket))

listeners-emptied : (u : Unsub) (bus : ChangeBus) → listeners (shrink u [] bus) u.table_id ≡ []
unfolding listeners shrink
listeners-emptied u bus = ground (arith, get-delete u.table_id u.table_id bus.subscribers)

-- A table that nobody listens to gets a subscriber, who leaves; then another one subscribes.
module _ (t : ℕ) (f g : Filter) (bus : ChangeBus) (h : IsSound bus)
    (unheard : get t bus.subscribers ≡ none) where
  abbrev first : Unsub × ChangeBus
  first = subscribe t f bus

  abbrev left_alone : ChangeBus
  left_alone = unsubscribe first.0 first.1

  abbrev second : Unsub × ChangeBus
  second = subscribe t g left_alone

  bucket_unheard : bucket_of bus t ≡ bus.next_ref
  unfolding bucket_of
  bucket_unheard = ground arith

  emptied : remove_subscriber (suc bus.next_ref) (members first.1 (bucket_of bus t)) ≡ []
  emptied =
      ap (remove_subscriber (suc bus.next_ref)) (members-subscribe_self t f bus h)
      ∙ remove-joined t f bus h
      ∙ rw bucket_unheard (members_fresh bus h)

  left_alone_lem : left_alone ≡ shrink first.0 [] first.1
  unfolding unsubscribe subscribe
  left_alone_lem = ap (λ left. shrink first.0 left first.1) emptied

  left_alone-IsSound : IsSound left_alone
  unfolding subscribe
  left_alone-IsSound =
      unsubscribe-IsSound first.0 first.1 (subscribe-IsSound t f bus h)
        (unfold bucket_of in ground arith)

  unmapped : get t left_alone.subscribers ≡ none
  unfolding subscribe shrink
  unmapped =
      rw left_alone_lem (ground (arith, get-delete t t (set t (bucket_of bus t) bus.subscribers)))

  next_ref_lem : left_alone.next_ref ≡ suc (suc bus.next_ref)
  unfolding unsubscribe shrink subscribe
  next_ref_lem = refl

  later : bucket_of left_alone t ≡ suc (suc bus.next_ref)
  unfolding bucket_of
  later = ground (arith, unmapped, next_ref_lem)

  emptied_bucket : members left_alone (bucket_of bus t) ≡ []
  unfolding members shrink subscribe
  emptied_bucket =
      subst (λ b. members b (bucket_of bus t) ≡ []) (sym left_alone_lem)
        (ground (
          arith,
          get-set_self (bucket_of bus t) [] (set (bucket_of bus t) (joined t f bus h) bus.buckets),
        ))

  old_bucket : members second.1 (bucket_of bus t) ≡ []
  old_bucket =
      members-subscribe t g left_alone left_alone-IsSound (bucket_of bus t)
      ∙ ground (arith, later, bucket_unheard, emptied_bucket)

  unheard_still : listeners left_alone t ≡ []
  unheard_still = listeners-unsubscribe t f bus h t ∙ (unfold listeners in ground (arith, unheard))

  second_call : listeners (unsubscribe first.0 second.1) t ≡ []
  unfolding unsubscribe remove_subscriber subscribe
  second_call =
      ap (λ subs. listeners (shrink first.0 (remove_subscriber (suc bus.next_ref) subs) second.1) t)
        old_bucket
      ∙ listeners-emptied first.0 second.1

  -- On a sound bus and a table without an entry: after one callback subscribed and left, a second
  -- one that subscribes is the table's only listener; when the first one's closure is then called
  -- again, an event for the table is delivered to nobody.
  pub unsubscribe_twice :
      (evt : ChangeEvent)
      → (listeners second.1 t ≡ me_of left_alone g ∷ [])
        × (publish t evt (unsubscribe first.0 second.1) ≡ [])
  unfolding publish
  unsubscribe_twice evt = (
    listeners-subscribe t g left_alone left_alone-IsSound
        ∙ ap (λ subs. subs ++ me_of left_alone g ∷ []) unheard_still,
    rw second_call,
  )
