-- ===== src/Queue/Fifo.antt =====
-- Queue<T> against the list of the accepted elements.
use deplug.Common.{
  ℕ, zero, suc, ◌+◌, ◌^◌, ◌<◌, ◌≤◌, ◌≡◌, refl, ap, ◌∙◌, sym, true, false, List, [], ◌∷◌, ◌++◌,
  arith, length, take, drop, take-append-drop, append-nil, append_assoc, length-append, wrap32,
  length-take, take-nil, drop-nil,
}
use deplug.Queue.{
  Queue, Dequeued, stopped, got, enqueue, enqueue_range, push_all, drain, dequeue, close, size,
  waits,
}

-- The calls on one queue, in the order in which they hold the mutex.
pub data Op {ℓ} (A : Type ℓ) : Type ℓ where
  puts : A → Op A
  puts_range : List A → Op A
  takes : ℕ → Op A
  closes : Op A

module _ {ℓ} {A : Type ℓ} where
  push_all-append : (buf xs : List A) → push_all buf xs ≡ buf ++ xs
  unfolding push_all
  push_all-append buf [] = sym (append-nil buf)
  push_all-append buf (x ∷ xs) = push_all-append (buf ++ x ∷ []) xs ∙ append_assoc buf (x ∷ []) xs

  -- The copy loop splits the buffer after `size - num` elements.
  drain-take :
      (buf : List A) (num size k : ℕ)
      → num + k ≡ size
      → drain buf num size ≡ (take k buf, drop k buf)
  unfolding drain
  drain-take [] num size zero e = refl
  drain-take [] num size (suc k) e = refl
  drain-take (x ∷ buf) num size zero e = ground arith
  drain-take (x ∷ buf) num size (suc k) e =
      ground (arith, drain-take buf (num + 1) size k (omega arith))

  abbrev pub delivered : Dequeued A → List A
  delivered stopped = []
  delivered (got xs) = xs

  -- The elements that the call hands to its caller, and the queue after it.
  unfoldable pub step : Op A → Queue A → List A × Queue A
  step (puts x) q = ([], enqueue x q)
  step (puts_range xs) q = ([], enqueue_range xs q)
  step (takes n) q = let r = dequeue n q in (delivered r.0, r.1)
  step closes q = ([], close q)

  -- All that a sequence of calls delivers, in order, and the queue at its end.
  unfoldable pub run : List (Op A) → Queue A → List A × Queue A
  unfolding step
  run [] q = ([], q)
  run (o ∷ os) q = let now = step o q in let later = run os now.1 in (now.0 ++ later.0, later.1)

  -- What the callers put in before the first `close`.
  unfoldable pub accepted : List (Op A) → List A
  accepted [] = []
  accepted (puts x ∷ os) = x ∷ accepted os
  accepted (puts_range xs ∷ os) = xs ++ accepted os
  accepted (takes n ∷ os) = accepted os
  accepted (closes ∷ os) = []

  enqueue_open :
      (x : A) (q : Queue A)
      → q.closed ≡ false
      → ((enqueue x q).buf ≡ q.buf ++ x ∷ []) × ((enqueue x q).closed ≡ false)
  unfolding enqueue
  enqueue_open x q o = ground arith

  pub enqueue_range_open :
      (xs : List A) (q : Queue A)
      → q.closed ≡ false
      → ((enqueue_range xs q).buf ≡ q.buf ++ xs) × ((enqueue_range xs q).closed ≡ false)
  unfolding enqueue_range
  enqueue_range_open xs q o = ground (arith, push_all-append q.buf xs)

  -- While the queue is open, `dequeue` moves out the first `size` elements, or all if fewer.
  pub dequeue_open :
      (n : ℕ) (q : Queue A)
      → q.closed ≡ false
      → ((dequeue n q).0 ≡ got (take n q.buf))
        × ((dequeue n q).1.buf ≡ drop n q.buf)
        × ((dequeue n q).1.closed ≡ false)
  unfolding dequeue
  dequeue_open n q o =
      ground (arith, drain-take q.buf 0 n n (omega arith), take-nil A n, drop-nil A n)

  pub dequeue-closed : (n : ℕ) (q : Queue A) → q.closed ≡ true → (dequeue n q).0 ≡ stopped
  unfolding dequeue
  dequeue-closed n q c = rw c

  -- A closed queue delivers nothing and takes nothing in.
  run-closed :
      (os : List (Op A)) (q : Queue A)
      → q.closed ≡ true
      → ((run os q).0 ≡ []) × ((run os q).1.buf ≡ q.buf)
  unfolding run enqueue enqueue_range dequeue close
  run-closed [] q c = (refl, refl)
  run-closed (puts x ∷ os) q c = ground (arith, run-closed os q c)
  run-closed (puts_range xs ∷ os) q c = ground (arith, run-closed os q c)
  run-closed (takes n ∷ os) q c = ground (arith, run-closed os q c)
  run-closed (closes ∷ os) q c = run-closed os (close q) refl

  kept_in_order :
      (os : List (Op A)) (q : Queue A)
      → q.closed ≡ false
      → (run os q).0 ++ (run os q).1.buf ≡ q.buf ++ accepted os
  unfolding run accepted close
  kept_in_order [] q o = sym (append-nil q.buf)
  kept_in_order (puts x ∷ os) q o =
      let (held, still) = enqueue_open x q o in
      rw (kept_in_order os (enqueue x q) still, held) (append_assoc q.buf (x ∷ []) (accepted os))
  kept_in_order (puts_range xs ∷ os) q o =
      let (held, still) = enqueue_range_open xs q o in
      rw (kept_in_order os (enqueue_range xs q) still, held) (append_assoc q.buf xs (accepted os))
  kept_in_order (takes n ∷ os) q o =
      let (out, held, still) = dequeue_open n q o in
      rw (
        append_assoc,
        kept_in_order os (dequeue n q).1 still,
        out,
        held,
        ← append_assoc,
        take-append-drop,
      )
  kept_in_order (closes ∷ os) q o =
      let (out, held) = run-closed os (close q) refl in rw (out, held, append-nil)

  run-append :
      (os later : List (Op A)) (q : Queue A)
      → ((run (os ++ later) q).0 ≡ (run os q).0 ++ (run later (run os q).1).0)
        × ((run (os ++ later) q).1 ≡ (run later (run os q).1).1)
  unfolding run
  run-append [] later q = (refl, refl)
  run-append (o ∷ os) later q =
      let now = step o q in
      let (out, left) = run-append os later now.1 in
      (
        ap (λ k. now.0 ++ k) out
            ∙ sym (append_assoc now.0 (run os now.1).0 (run later (run os now.1).1).0),
        left,
      )

  run_closed_stays : (os : List (Op A)) (q : Queue A) → q.closed ≡ true → (run os q).1.closed ≡ true
  unfolding run enqueue enqueue_range dequeue close
  run_closed_stays [] q c = c
  run_closed_stays (puts x ∷ os) q c = run_closed_stays os (enqueue x q) (ground arith)
  run_closed_stays (puts_range xs ∷ os) q c =
      run_closed_stays os (enqueue_range xs q) (ground arith)
  run_closed_stays (takes n ∷ os) q c = run_closed_stays os (dequeue n q).1 (ground arith)
  run_closed_stays (closes ∷ os) q c = run_closed_stays os (close q) refl

  -- From an open queue, whatever the calls and their order, what they deliver followed by what
  -- stays in the buffer is what the buffer held followed by what was put in before the first
  -- `close`: nothing is lost, doubled or reordered. The calls after a `close`, whatever they are,
  -- deliver nothing, and a `dequeue` after them returns false.
  pub run-fifo :
      (os : List (Op A)) (q : Queue A)
      → q.closed ≡ false
      → ((run os q).0 ++ (run os q).1.buf ≡ q.buf ++ accepted os)
        × ((later : List (Op A)) → (run (os ++ closes ∷ later) q).0 ≡ (run os q).0)
        × ((later : List (Op A)) (n : ℕ) → (dequeue n (run (os ++ closes ∷ later) q).1).0 ≡ stopped)
  unfolding run close
  run-fifo os q o =
      let end = close (run os q).1 in
      (
        kept_in_order os q o,
        λ later.
            (run-append os (closes ∷ later) q).0
            ∙ ap (λ k. (run os q).0 ++ k) (run-closed later end refl).0
            ∙ append-nil (run os q).0,
        λ later n.
            ap (λ r. (dequeue n r).0) (run-append os (closes ∷ later) q).1
            ∙ dequeue-closed n (run later end).1 (run_closed_stays later end refl),
      )

  waits_open :
      (wait_for : ℕ) (q : Queue A)
      → 0 < wait_for
      → waits wait_for q ≡ false
      → q.closed ≡ false
      → 0 < length q.buf
  unfolding waits
  waits_open wait_for q h w o = ground arith

  -- A reader that has stopped waiting on an open queue, and asks for at least one element, gets
  -- one: `dequeue` does not return empty-handed before its time is over.
  pub dequeue-progress :
      (wait_for n : ℕ) (q : Queue A)
      → 0 < wait_for
      → waits wait_for q ≡ false
      → q.closed ≡ false
      → 0 < n
      → (xs : List A) × ((dequeue n q).0 ≡ got xs) × (0 < length xs) × (length xs ≤ n)
  dequeue-progress wait_for n q h w o m =
      let some_left = waits_open wait_for q h w o in
      let size = length-take n q.buf in
      (take n q.buf, (dequeue_open n q o).0, omega arith, omega arith)

  -- What `size` reads is the length of the buffer, as a `uint32_t`.
  abbrev pub IsCounted : Queue A → Type 0
  IsCounted q = size q ≡ wrap32 (length q.buf)

  dequeue-IsCounted :
      (n : ℕ) (q : Queue A) → q.closed ≡ false → 0 < length q.buf → IsCounted (dequeue n q).1
  unfolding dequeue size
  dequeue-IsCounted n q o some_left = ground arith

  enqueue_range-IsCounted :
      (xs : List A) (q : Queue A) → q.closed ≡ false → IsCounted (enqueue_range xs q)
  unfolding enqueue_range size
  enqueue_range-IsCounted xs q o = ground arith

  -- The range overload leaves the count of an open queue right whatever it was before, and so does
  -- a `dequeue` after the overload for one value.
  pub size-synced :
      (x : A) (xs : List A) (n : ℕ) (q : Queue A)
      → q.closed ≡ false
      → IsCounted (enqueue_range xs q) × IsCounted (dequeue n (enqueue x q)).1
  size-synced x xs n q o =
      let (held, still) = enqueue_open x q o in
      let some_left : 0 < length (enqueue x q).buf =
        rw held (omega (arith, length-append q.buf (x ∷ []))) in
      (enqueue_range-IsCounted xs q o, dequeue-IsCounted n (enqueue x q) still some_left)

  -- The overload for one value does not: on an open queue with a right count and room in a
  -- `uint32_t`, the count that `size` reads afterwards is one short of the buffer's length.
  pub size-stale :
      (x : A) (q : Queue A)
      → q.closed ≡ false
      → length q.buf + 1 < 2 ^ 32
      → IsCounted q
      → size (enqueue x q) + 1 ≡ length (enqueue x q).buf
  unfolding enqueue size
  size-stale x q o small c = ground (arith, length-append q.buf (x ∷ []))
