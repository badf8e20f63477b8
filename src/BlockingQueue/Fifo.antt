-- ===== src/BlockingQueue/Fifo.antt =====
-- The queue of libcrocofixutility/blocking_queue.cppm is a list to whose end values go and from whose front
-- they come, and no thread sleeps on for want of a wake-up.
use crocofix.Base.{
  ℕ, zero, suc, ◌+◌, ◌≤◌, ◌≡◌, refl, sym, ap, subst, ◌∙◌, ◌⊎◌, inl, inr, false, Option, none, some,
  List, [], ◌∷◌, ◌++◌, append_assoc, append-nil, arith, length,
}
use crocofix.BlockingQueue.{
  BlockingQueue, take_back, behind, woken_of, notify_one, enqueue, wait, dequeue, try_dequeue,
  taken, tried,
}

-- The values in the order they are to come out.
unfoldable pub contents {ℓ} : {A : Type ℓ} → List A → List A
contents [] = []
contents (x ∷ xs) = contents xs ++ x ∷ []

module _ {ℓ} {A : Type ℓ} where
  -- The front of the list and the rest of it; nothing of an empty list only.
  abbrev Split : List A → Option (A × List A) → Type ℓ
  Split xs none = xs ≡ []
  Split xs (some (v, ys)) = (contents xs ≡ v ∷ contents ys) × (length xs ≡ suc (length ys))

  take_back-Split : (xs : List A) → Split xs (take_back xs)
  unfolding take_back contents
  take_back-Split [] = refl
  take_back-Split (x ∷ []) = (refl, refl)
  take_back-Split (x ∷ y ∷ xs) = by_rest (take_back (y ∷ xs)) (take_back-Split (y ∷ xs))
    where
      by_rest : (o : Option (A × List A)) → Split (y ∷ xs) o → Split (x ∷ y ∷ xs) (behind x o)
      by_rest none h = absurd (cc h)
      by_rest (some (v, zs)) h = (ap (λ (s : List A). s ++ x ∷ []) h.0, ap suc h.1)

  -- What `dequeue` takes of the queue; the threads that wait are left alone.
  abbrev Taken : BlockingQueue A → Option (A × BlockingQueue A) → Type ℓ
  Taken q none = q.queue ≡ []
  Taken q (some (v, p)) =
      (contents q.queue ≡ v ∷ contents p.queue)
      × (length q.queue ≡ suc (length p.queue))
      × (p.asleep ≡ q.asleep)
      × (p.woken ≡ q.woken)

  dequeue-Taken : (q : BlockingQueue A) → Taken q (dequeue q)
  unfolding dequeue
  dequeue-Taken q = by_back (take_back q.queue) (take_back-Split q.queue)
    where
      by_back : (o : Option (A × List A)) → Split q.queue o → Taken q (taken q o)
      by_back none h = h
      by_back (some (v, ys)) h = (h.0, h.1, refl, refl)

  took : (q p : BlockingQueue A) (v : A) → dequeue q ≡ some (v, p) → Taken q (some (v, p))
  took q p v e = subst (λ (o : Option (A × BlockingQueue A)). Taken q o) e (dequeue-Taken q)

  -- What threads do to a queue in any order: what was enqueued and what was taken out, the oldest first. A thread
  -- that finds the queue empty sleeps; one that sleeps may be woken for no reason, or because its time is
  -- up; one that was woken takes a value, sleeps again or, in `try_dequeue`, gives up, which also a thread
  -- may do that never slept.
  pub data Runs : List A → List A → BlockingQueue A → Type ℓ where
    constructed : Runs [] [] (record { queue = []; asleep = 0; woken = 0 })
    enqueued :
        {ins outs : List A} {q : BlockingQueue A} (v : A)
        → Runs ins outs q
        → Runs (ins ++ v ∷ []) outs (enqueue v q)
    dequeued :
        {ins outs : List A} {q : BlockingQueue A} (v : A) (p : BlockingQueue A)
        → Runs ins outs q
        → dequeue q ≡ some (v, p)
        → Runs ins (outs ++ v ∷ []) p
    slept :
        {ins outs : List A} {q : BlockingQueue A}
        → Runs ins outs q
        → dequeue q ≡ none
        → Runs ins outs (wait q)
    roused :
        {ins outs : List A} {q : BlockingQueue A} (n : ℕ)
        → Runs ins outs q
        → q.asleep ≡ suc n
        → Runs ins outs (record q { asleep = n; woken = q.woken + 1 })
    resumed :
        {ins outs : List A} {q : BlockingQueue A} (n : ℕ) (v : A) (p : BlockingQueue A)
        → Runs ins outs q
        → q.woken ≡ suc n
        → dequeue q ≡ some (v, p)
        → Runs ins (outs ++ v ∷ []) (record p { woken = n })
    slept_again :
        {ins outs : List A} {q : BlockingQueue A} (n : ℕ)
        → Runs ins outs q
        → q.woken ≡ suc n
        → dequeue q ≡ none
        → Runs ins outs (wait (record q { woken = n }))
    gave_up :
        {ins outs : List A} {q : BlockingQueue A} (n : ℕ) (value : A)
        → Runs ins outs q
        → q.woken ≡ suc n
        → (try_dequeue value q).0 ≡ false
        → Runs ins outs (record (try_dequeue value q).2 { woken = n })
    tried_for :
        {ins outs : List A} {q : BlockingQueue A} (value : A)
        → Runs ins outs q
        → (try_dequeue value q).0 ≡ false
        → Runs ins outs (try_dequeue value q).2

  -- A `try_dequeue` that gives up found nothing and changes nothing.
  unchanged :
      (value : A) (q : BlockingQueue A)
      → (try_dequeue value q).0 ≡ false
      → ((try_dequeue value q).2 ≡ q) × (q.queue ≡ [])
  unfolding try_dequeue
  unchanged value q = by_taken (dequeue q) (dequeue-Taken q)
    where
      by_taken :
          (o : Option (A × BlockingQueue A))
          → Taken q o
          → (tried value q o).0 ≡ false
          → ((tried value q o).2 ≡ q) × (q.queue ≡ [])
      by_taken none h e = (refl, h)
      by_taken (some (v, p)) h e = absurd (cc e)

  -- For each value in the queue there is a thread that was woken and will run, unless none sleeps.
  abbrev pub Awake : BlockingQueue A → Type 0
  Awake q = (q.asleep ≡ 0) ⊎ (length q.queue ≤ q.woken)

  -- The values enqueued are those taken out and those in the queue, and the sleepers are accounted for.
  record IsSound (ins outs : List A) (q : BlockingQueue A) : Type ℓ where
    whole : ins ≡ outs ++ contents q.queue
    awake : Awake q

  empty-length : (q : BlockingQueue A) → q.queue ≡ [] → length q.queue ≡ 0
  empty-length q e = ap length e

  nothing : (q : BlockingQueue A) → dequeue q ≡ none → length q.queue ≡ 0
  nothing q e =
      empty-length q (subst (λ (o : Option (A × BlockingQueue A)). Taken q o) e (dequeue-Taken q))

  out-whole :
      (ins outs : List A) (q p : BlockingQueue A) (v : A)
      → ins ≡ outs ++ contents q.queue
      → contents q.queue ≡ v ∷ contents p.queue
      → ins ≡ (outs ++ v ∷ []) ++ contents p.queue
  out-whole ins outs q p v h e =
      h ∙ ap (λ (s : List A). outs ++ s) e ∙ sym (append_assoc outs (v ∷ []) (contents p.queue))

  enqueue-IsSound :
      (ins outs : List A) (q : BlockingQueue A) (v : A)
      → IsSound ins outs q
      → IsSound (ins ++ v ∷ []) outs (enqueue v q)
  unfolding enqueue notify_one contents
  enqueue-IsSound ins outs q v h = by_asleep q.asleep refl h.awake
    where
      grown : ins ++ v ∷ [] ≡ outs ++ (contents q.queue ++ v ∷ [])
      grown =
          ap (λ (s : List A). s ++ v ∷ []) h.whole ∙ append_assoc outs (contents q.queue) (v ∷ [])

      by_asleep :
          (n : ℕ)
          → q.asleep ≡ n
          → Awake q
          → IsSound (ins ++ v ∷ []) outs (woken_of n (record q { queue = v ∷ q.queue }))
      by_asleep zero e k = record { whole = grown; awake = inl e }
      by_asleep (suc n) e (inl z) = absurd (omega (arith, e, z))
      by_asleep (suc n) e (inr l) = record { whole = grown; awake = inr (omega (arith, l)) }

  one_out : (q p : BlockingQueue A) (v : A) → Taken q (some (v, p)) → Awake q → Awake p
  one_out q p v t (inl z) = inl (t.2 ∙ z)
  one_out q p v t (inr l) = inr (omega (arith, l, t.1, t.3))

  -- A thread that was woken uses up its wake-up.
  used_up :
      (q p : BlockingQueue A) (v : A) (n : ℕ)
      → Taken q (some (v, p))
      → q.woken ≡ suc n
      → Awake q
      → Awake (record p { woken = n })
  used_up q p v n t e (inl z) = inl (t.2 ∙ z)
  used_up q p v n t e (inr l) = inr (omega (arith, l, t.1, e))

  rouse-Awake :
      (q : BlockingQueue A) (n : ℕ)
      → q.asleep ≡ suc n
      → Awake q
      → Awake (record q { asleep = n; woken = q.woken + 1 })
  rouse-Awake q n e (inl z) = absurd (omega (arith, e, z))
  rouse-Awake q n e (inr l) = inr (omega (arith, l))

  Runs-IsSound : (ins outs : List A) (q : BlockingQueue A) → Runs ins outs q → IsSound ins outs q
  unfolding contents wait
  Runs-IsSound ins outs q constructed = record { whole = refl; awake = inl refl }
  Runs-IsSound ins outs q (enqueued {ins = is} {q = r} v h) =
      enqueue-IsSound is outs r v (Runs-IsSound is outs r h)
  Runs-IsSound ins outs q (dequeued {outs = os} {q = r} v p h e) =
      let k = Runs-IsSound ins os r h in
      let t = took r p v e in
      record { whole = out-whole ins os r p v k.whole t.0; awake = one_out r p v t k.awake }
  Runs-IsSound ins outs q (slept {q = r} h e) = record {
    whole = (Runs-IsSound ins outs r h).whole;
    awake = inr (omega (arith, nothing r e));
  }
  Runs-IsSound ins outs q (roused {q = r} n h e) =
      let k = Runs-IsSound ins outs r h in
      record { whole = k.whole; awake = rouse-Awake r n e k.awake }
  Runs-IsSound ins outs q (resumed {outs = os} {q = r} n v p h w e) =
      let k = Runs-IsSound ins os r h in
      let t = took r p v e in
      record { whole = out-whole ins os r p v k.whole t.0; awake = used_up r p v n t w k.awake }
  Runs-IsSound ins outs q (slept_again {q = r} n h w e) = record {
    whole = (Runs-IsSound ins outs r h).whole;
    awake = inr (omega (arith, nothing r e));
  }
  Runs-IsSound ins outs q (gave_up {q = r} n value h w e) =
      let k = Runs-IsSound ins outs r h in
      let u = unchanged value r e in
      let same : (try_dequeue value r).2.queue ≡ r.queue =
        ap (λ (x : BlockingQueue A). x.queue) u.0 in
      record {
        whole = k.whole ∙ ap (λ (s : List A). outs ++ contents s) (sym same);
        awake = inr (omega (arith, ap length (same ∙ u.1)));
      }
  Runs-IsSound ins outs q (tried_for {q = r} value h e) =
      subst (IsSound ins outs) (sym (unchanged value r e).0) (Runs-IsSound ins outs r h)

  -- The step that a thread takes next that has the mutex.
  abbrev pub Next : List A → List A → Option (A × BlockingQueue A) → Type ℓ
  Next ins outs none = ins ≡ outs
  Next ins outs (some (v, p)) = ins ≡ (outs ++ v ∷ []) ++ contents p.queue

  -- A thread in `dequeue` goes to sleep only while all values enqueued have been taken out; otherwise it goes on
  -- with the oldest of those that have not. And while a thread sleeps there are at least as many threads
  -- woken, which are going to run, as values in the queue: none sleeps on for want of a wake-up.
  pub Runs-Next :
      (ins outs : List A) (q : BlockingQueue A)
      → Runs ins outs q
      → Next ins outs (dequeue q) × Awake q
  unfolding contents
  Runs-Next ins outs q h =
      let k = Runs-IsSound ins outs q h in (by_front k (dequeue q) (dequeue-Taken q), k.awake)
    where
      by_front :
          IsSound ins outs q → (o : Option (A × BlockingQueue A)) → Taken q o → Next ins outs o
      by_front k none e = k.whole ∙ ap (λ (s : List A). outs ++ contents s) e ∙ append-nil outs
      by_front k (some (v, p)) e = out-whole ins outs q p v k.whole e.0
