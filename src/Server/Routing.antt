-- ===== src/Server/Routing.antt =====
-- crates/vdsm-rpc/src/server.rs: where the reply to a SEND goes, and which requests get one.
use vdsm_rs.Base.{
  ◌≡◌, ◌⊎◌, inl, inr, refl, ap, sym, false, Option, none, some, List, [], ◌∷◌, Bytes, Text, codes,
  text_eq, text_eq_sound, text_eq_refl, if-cases, ◌&&◌,
}
use mathlib.Core.HLevel.{⊥_prop}
use mathlib.Core.List.{Mem, Perm, mem-cons, not-mem-nil}
use mathlib.Core.List.Perm
use mathlib.Core.Logic.Or
use vdsm_rs.Encoding.TextMap.{TextMap}
use vdsm_rs.Rpc.Protocol.{Response}
use vdsm_rs.Server.{Env}
use vdsm_rs.Server.Reply.{
  wrote, reply_to, reply_destination, find_subscription, default_queue, unwrap_or, is_none,
}
use vdsm_rs.Stomp.Build.{message}
use vdsm_rs.Stomp.{Frame, header}

abbrev pub Entry : Type 0
Entry = Text × Text

-- Where a reply may go: to the queue that the `reply-to` header names; else to a queue that is
-- subscribed to; else, with no subscription at all, to the default queue.
abbrev pub IsDestination : Option Text → TextMap Text → Text → Type 0
IsDestination to m dest =
    (to ≡ some dest)
    ⊎ (((to ≡ none) × (id : Text) × Mem (id, dest) m)
        ⊎ ((to ≡ none) × (m ≡ []) × (dest ≡ default_queue)))

-- The id that the reply carries: that of a subscription to its queue, or "0" if there is none.
abbrev pub IsSubscription : TextMap Text → Text → Text → Type 0
IsSubscription m dest id = Mem (id, dest) m ⊎ (((i : Text) → ¬ Mem (i, dest) m) × (id ≡ codes "0"))

mem_head : (e : Entry) (es : List Entry) → Mem e (e ∷ es)
mem_head e es = mem-cons.1 (Or.inl refl)

mem_tail : (e x : Entry) (es : List Entry) → Mem e es → Mem e (x ∷ es)
mem_tail e x es h = mem-cons.1 (Or.inr h)

reply_destination-IsDestination :
    (to : Option Text) (es : List Entry) → IsDestination to es (reply_destination to es)
unfolding reply_destination
reply_destination-IsDestination (some d) es = inl refl
reply_destination-IsDestination none [] = inr (inr (refl, refl, refl))
reply_destination-IsDestination none ((id, d) ∷ es) = inr (inl (refl, id, mem_head (id, d) es))

find_subscription-IsSubscription :
    (dest : Text) (es : List Entry)
    → IsSubscription es dest (unwrap_or (codes "0") (find_subscription dest es))
unfolding find_subscription
find_subscription-IsSubscription dest [] = inr (λ i m. not-mem-nil m, refl)
find_subscription-IsSubscription dest ((id, d) ∷ es) =
    let rest = find_subscription-IsSubscription dest es in
    if-cases (λ x. IsSubscription ((id, d) ∷ es) dest (unwrap_or (codes "0") x)) (text_eq d dest)
      (some id) _ (λ e. inl (rw (← text_eq_sound d dest e) (mem_head (id, d) es)))
      λ e. elim rest [
        | inl m ↦ inl (mem_tail _ (id, d) es m)
        | inr (absent, zero) ↦ inr (
          λ i m.
              Or.elim ⊥_prop (mem-cons.0 m) (λ q. other d dest e (ap (λ (x : Entry). x.1) (sym q)))
                (absent i),
          zero,
        )
      ]
  where
    other : (a b : Text) → text_eq a b ≡ false → a ≡ b → ⊥
    other a b e q = cc (text_eq_refl b, ap (λ x. text_eq x b) q)

-- A hash map is iterated over its own entries, each once, in some order.
module _ {V W : Type 0} (env : Env V W) (visits : (m : TextMap Text) → Perm (env.iter m) m) where
  IsDestination-iter :
      (to : Option Text) (m : TextMap Text) (d : Text)
      → IsDestination to (env.iter m) d
      → IsDestination to m d
  IsDestination-iter to m d (inl e) = inl e
  IsDestination-iter to m d (inr (inl (e, id, h))) =
      inr (inl (e, id, (Perm.mem_iff (visits m)).0 h))
  IsDestination-iter to m d (inr (inr (e, h, q))) =
      inr (inr (e, Perm.eq-nil (Perm.symm (rw h at (visits m))), q))

  IsSubscription-iter :
      (m : TextMap Text) (d id : Text) → IsSubscription (env.iter m) d id → IsSubscription m d id
  IsSubscription-iter m d id (inl h) = inl ((Perm.mem_iff (visits m)).0 h)
  IsSubscription-iter m d id (inr (h, e)) = inr (λ i k. h i ((Perm.mem_iff (visits m)).1 k), e)

  -- A response that is not a notification's success is written, if it can be encoded.
  pub reply_to-wrote :
      (f : Frame) (m : TextMap Text) (r : Response V) (id : Option V) (b : Bytes)
      → (is_none id && is_none r.error) ≡ false
      → env.encode r ≡ some b
      → (dest sub : Text) × (reply_to env f m r id ≡ wrote (message dest sub b))
        × IsDestination (header f (codes "reply-to")) m dest
        × IsSubscription m dest sub
  unfolding reply_to
  reply_to-wrote f m r id b e q =
      let es = env.iter m in
      let to = header f (codes "reply-to") in
      let dest = reply_destination to es in
      (
        dest,
        unwrap_or (codes "0") (find_subscription dest es),
        rw (e, q),
        IsDestination-iter to m dest (reply_destination-IsDestination to es),
        IsSubscription-iter m dest _ (find_subscription-IsSubscription dest es),
      )
