-- ===== src/Ebpf/Reader/Order.antt =====
-- internal/sensor/ebpf/tracer.go: about the events that a consumer gets.
use scrutiny.Base.{
  ℕ, ◌≤◌, ◌<◌, ◌≡◌, refl, ap, ◌∙◌, sym, Bool, true, false, Option, none, some, List, [], ◌∷◌, ◌++◌,
  length, ◌⊎◌, append_below, append_below-length, arith, if◌then◌else◌, inl, inr, Bool-cases, ltb,
  length-append,
}
use mathlib.Core.List.{append_assoc, append-nil}
use mathlib.Core.Path.{subst}
use scrutiny.Ebpf.Reader.{
  channel_size, ReadResult, sample, transient, ring_closed, Reader, deliver, read_round, Reach,
  begin, round, consume, read_by,
}

-- A list is another one with elements left out.
pub data Sublist {ℓ} {A : Type ℓ} : List A → List A → Type ℓ where
  nil : Sublist [] []
  skip : {x : A} {xs ys : List A} → Sublist xs ys → Sublist xs (x ∷ ys)
  keep : {x : A} {xs ys : List A} → Sublist xs ys → Sublist (x ∷ xs) (x ∷ ys)

module _ {ℓ} {A : Type ℓ} where
  Sublist-refl : (xs : List A) → Sublist xs xs
  Sublist-refl [] = nil
  Sublist-refl (x ∷ xs) = keep (Sublist-refl xs)

  skip-end : {xs ys : List A} (x : A) → Sublist xs ys → Sublist xs (ys ++ x ∷ [])
  skip-end x nil = skip nil
  skip-end x (skip s) = skip (skip-end x s)
  skip-end x (keep s) = keep (skip-end x s)

  keep-end : {xs ys : List A} (x : A) → Sublist xs ys → Sublist (xs ++ x ∷ []) (ys ++ x ∷ [])
  keep-end x nil = keep nil
  keep-end x (skip s) = skip (keep-end x s)
  keep-end x (keep s) = keep (keep-end x s)

module _ {ℓ} {A : Type ℓ} (decode : List ℕ → Option A) where
  abbrev one : Option A → List A
  one none = []
  one (some evt) = evt ∷ []

  -- The events of the records that decode.
  abbrev pub decoded : List (List ℕ) → List A
  decoded [] = []
  decoded (raw ∷ raws) = one (decode raw) ++ decoded raws

  decoded-append : (xs ys : List (List ℕ)) → decoded (xs ++ ys) ≡ decoded xs ++ decoded ys
  decoded-append [] ys = refl
  decoded-append (x ∷ xs) ys =
      ap (λ l. one (decode x) ++ l) (decoded-append xs ys)
      ∙ sym (append_assoc (one (decode x)) (decoded xs) (decoded ys))

  decoded-last :
      (xs : List (List ℕ)) (x : List ℕ) → decoded (xs ++ x ∷ []) ≡ decoded xs ++ one (decode x)
  decoded-last xs x =
      decoded-append xs (x ∷ []) ∙ ap (λ l. decoded xs ++ l) (append-nil (one (decode x)))

  -- The channel is not over its size, and what the consumer took, with what still waits, are events
  -- of the list, in order; all of them, unless there were more than fit in the channel.
  abbrev pub IsOrdered : List A → List A → Reader A → Type ℓ
  IsOrdered events got s =
      (length s.queue ≤ channel_size)
      × Sublist (got ++ s.queue) events
      × ((got ++ s.queue ≡ events) ⊎ (channel_size < length events))

  sent :
      (events got queue : List A) (evt : A) (room : Bool)
      → Sublist (got ++ queue) events
      → Sublist (got ++ (if room then queue ++ evt ∷ [] else queue)) (events ++ evt ∷ [])
  sent events got queue evt true sub =
      subst (λ l. Sublist l (events ++ evt ∷ [])) (append_assoc got queue (evt ∷ []))
        (keep-end evt sub)
  sent events got queue evt false sub = skip-end evt sub

  sent_all :
      (events got queue : List A) (evt : A)
      → (got ++ queue ≡ events) ⊎ (channel_size < length events)
      → (got ++ append_below channel_size evt queue ≡ events ++ evt ∷ [])
        ⊎ (channel_size < length (events ++ evt ∷ []))
  sent_all events got queue evt (inr many) =
      inr (omega (arith, many, length-append events (evt ∷ [])))
  sent_all events got queue evt (inl e) = elim (Bool-cases (ltb (length queue) channel_size)) [
    | inl room ↦ inl (
        ap (λ b. got ++ (if b then queue ++ evt ∷ [] else queue)) room
        ∙ sym (append_assoc got queue (evt ∷ []))
        ∙ ap (λ l. l ++ evt ∷ []) e)
    | inr full ↦
        let long : channel_size ≤ length queue = ground arith in
        inr (
          omega
            (arith, long, length-append got queue, ap length e, length-append events (evt ∷ [])))
  ]

  deliver-IsOrdered :
      (events got : List A) (o : Option A) (s : Reader A)
      → IsOrdered events got s
      → IsOrdered (events ++ one o) got (deliver decode o s)
  unfolding deliver
  deliver-IsOrdered events got none s h = subst (λ l. IsOrdered l got s) (sym (append-nil events)) h
  deliver-IsOrdered events got (some evt) s (few, sub, all) = (
    append_below-length channel_size evt s.queue few,
    sent events got s.queue evt (ltb (length s.queue) channel_size) sub,
    sent_all events got s.queue evt all,
  )

  -- A round that takes nothing from the ring.
  idle :
      (raws : List (List ℕ)) (got : List A) (s : Reader A)
      → IsOrdered (decoded raws) got s
      → IsOrdered (decoded (raws ++ [])) got s
  idle raws got s h = subst (λ l. IsOrdered (decoded l) got s) (sym (append-nil raws)) h

  read_round-IsOrdered :
      (raws : List (List ℕ)) (got : List A) (stopped : Bool) (r : ReadResult) (s : Reader A)
      → IsOrdered (decoded raws) got s
      → IsOrdered (decoded (raws ++ read_by stopped r)) got (read_round decode stopped r s)
  unfolding read_round
  read_round-IsOrdered raws got false (sample raw) s h =
      subst (λ l. IsOrdered l got (deliver decode (decode raw) s)) (sym (decoded-last raws raw))
        (deliver-IsOrdered (decoded raws) got (decode raw) s h)
  read_round-IsOrdered raws got true r s h = idle raws got (record s { running = false }) h
  read_round-IsOrdered raws got false transient s h = idle raws got s h
  read_round-IsOrdered raws got false ring_closed s h =
      idle raws got (record s { running = false }) h

  -- In every state that rounds of the reader and a consumer reach, in whatever order they come, at
  -- most 4096 events wait in the channel, and the events that the consumer took, followed by those
  -- that wait, are events of the records that were read, in order: all of them, unless more than
  -- 4096 events were read.
  pub Reach-IsOrdered :
      {raws : List (List ℕ)} {got : List A} {s : Reader A}
      → Reach decode raws got s
      → IsOrdered (decoded raws) got s
  Reach-IsOrdered begin = (omega arith, nil, inl refl)
  Reach-IsOrdered (round {raws} {got} {queue} stopped r h) =
      read_round-IsOrdered raws got stopped r _ (Reach-IsOrdered h)
  Reach-IsOrdered (consume {raws} {got} {running} {evt} {queue} h) =
      let (few, sub, all) = Reach-IsOrdered h in
      let same = sym (append_assoc got (evt ∷ []) queue) in
      let events = decoded raws in
      (
        omega (arith, few),
        subst (λ l. Sublist l events) same sub,
        subst (λ l. (l ≡ events) ⊎ (channel_size < length events)) same all,
      )
