-- ===== src/Allocator/Chains.antt =====
-- Free lists: chunks that are linked from the first chunk of a block.
use deplug.Common.{
  ℕ, zero, suc, ◌+◌, ◌<◌, ◌≡◌, refl, ap, ◌∙◌, ◌≢◌, true, false, ◌&&◌, List, [], ◌∷◌, ◌++◌, arith,
  ltb, leb, if◌then◌else◌, length,
}
use deplug.FrameStore.{contains}
use deplug.Allocator.{Cell, link, write, next, follows, unlink, link_rest}

module _ {T : Type 0} where
  -- The chunks linked from `p`, up to the null pointer.
  unfoldable pub Chain : (ℕ → Cell T) → ℕ → List ℕ → Type 0
  Chain heap p [] = heap p ≡ link 0
  Chain heap p (x ∷ fs) = (heap p ≡ link x) × (0 < x) × Chain heap x fs

  pub write_here : (p : ℕ) (c : Cell T) (heap : ℕ → Cell T) → write p c heap p ≡ c
  unfolding write
  write_here p c heap = ground arith

  pub write_other : (p q : ℕ) (c : Cell T) (heap : ℕ → Cell T) → p ≢ q → write p c heap q ≡ heap q
  unfolding write
  write_other p q c heap apart = ground arith

unfoldable pub NoDup : List ℕ → Type 0
NoDup [] = Unit
NoDup (x ∷ xs) = (contains x xs ≡ false) × NoDup xs

unfoldable pub range : ℕ → ℕ → List ℕ
range begin zero = []
range begin (suc n) = begin ∷ range (begin + 1) n

pub contains-range :
    (q begin n : ℕ) → contains q (range begin n) ≡ (leb begin q && ltb q (begin + n))
unfolding contains range
contains-range q begin zero = ground arith
contains-range q begin (suc n) = ground (arith, contains-range q (begin + 1) n)

pub NoDup-range : (begin n : ℕ) → NoDup (range begin n)
unfolding NoDup range
NoDup-range begin zero = tt
NoDup-range begin (suc n) =
    (ground (arith, contains-range begin (begin + 1) n), NoDup-range (begin + 1) n)

pub NoDup-right : (xs ys : List ℕ) → NoDup (xs ++ ys) → NoDup ys
unfolding NoDup
NoDup-right [] ys h = h
NoDup-right (x ∷ xs) ys (new, h) = NoDup-right xs ys h

module _ {T : Type 0} (bits : Cell T → ℕ) where
  pub next-link : (heap : ℕ → Cell T) (p x : ℕ) → heap p ≡ link x → next bits (heap p) ≡ x
  unfolding next
  next-link heap p x e = rw e

  pub Chain-write :
      (heap : ℕ → Cell T) (q p : ℕ) (c : Cell T) (fs : List ℕ)
      → contains q (p ∷ fs) ≡ false
      → Chain heap p fs
      → Chain (write q c heap) p fs
  unfolding Chain contains
  Chain-write heap q p c [] out h = write_other q p c heap (ground arith) ∙ h
  Chain-write heap q p c (x ∷ fs) out (e, pos, h) = (
    write_other q p c heap (ground arith) ∙ e,
    pos,
    Chain-write heap q x c fs (ground (arith, out)) h,
  )

  -- What the first chunk links to is taken off the list.
  unlink_one :
      (heap : ℕ → Cell T) (p x : ℕ) (fs : List ℕ)
      → contains p (x ∷ fs) ≡ false
      → Chain heap p (x ∷ fs)
      → Chain (write p (link (next bits (heap (next bits (heap p))))) heap) p fs
  unfolding Chain contains
  unlink_one heap p x [] out (e, pos, h) =
      write_here p (link (next bits (heap (next bits (heap p))))) heap
      ∙ ap link (ap (λ k. next bits (heap k)) (next-link heap p x e) ∙ next-link heap x 0 h)
  unlink_one heap p x (y ∷ fs) out (e, pos, (f, more, h)) = (
    write_here p (link (next bits (heap (next bits (heap p))))) heap
        ∙ ap link (ap (λ k. next bits (heap k)) (next-link heap p x e) ∙ next-link heap x y f),
    more,
    Chain-write heap p y (link (next bits (heap (next bits (heap p))))) fs (ground (arith, out)) h,
  )

  pub unlink-Chain :
      (p : ℕ) (xs rest : List ℕ) (heap : ℕ → Cell T)
      → contains p (xs ++ rest) ≡ false
      → Chain heap p (xs ++ rest)
      → Chain (unlink bits p (length xs) heap) p rest
  unfolding unlink contains
  unlink-Chain p [] rest heap out h = h
  unlink-Chain p (x ∷ xs) rest heap out h =
      unlink-Chain p xs rest (write p (link (next bits (heap (next bits (heap p))))) heap)
        (ground (arith, out)) (unlink_one heap p x (xs ++ rest) out h)

  pub unlink_other : (p n q : ℕ) (heap : ℕ → Cell T) → p ≢ q → unlink bits p n heap q ≡ heap q
  unfolding unlink
  unlink_other p zero q heap apart = refl
  unlink_other p (suc n) q heap apart =
      unlink_other p n q (write p (link (next bits (heap (next bits (heap p))))) heap) apart
      ∙ write_other p q (link (next bits (heap (next bits (heap p))))) heap apart

  -- Chunks that follow each other are a range.
  pub follows-range :
      (heap : ℕ → Cell T) (p index left : ℕ) (fs : List ℕ)
      → 0 < index
      → Chain heap p fs
      → follows bits heap p index left ≡ true
      → (rest : List ℕ) × (fs ≡ range (p + 1) left ++ rest)
  unfolding follows Chain range
  follows-range heap p index zero fs late h ok = (fs, refl)
  follows-range heap p index (suc left) [] late h ok =
      let e = next-link heap p 0 h in absurd (ground (arith, e, ok))
  follows-range heap p index (suc left) (x ∷ fs) late (e, pos, h) ok =
      let f = next-link heap p x e in
      let here : x ≡ p + 1 = ground (arith, f, ok) in
      let after : follows bits heap x (index + 1) left ≡ true = ground (arith, f, ok) in
      let (rest, g) = follows-range heap x (index + 1) left fs (omega arith) h after in
      (rest, rw (g, here))

  pub link_rest-at :
      (front i left q : ℕ) (heap : ℕ → Cell T)
      → link_rest front i left heap q
        ≡ (if leb (front + i) q && ltb q (front + i + left) then link (q + 1) else heap q)
  unfolding link_rest write
  link_rest-at front i zero q heap = ground arith
  link_rest-at front i (suc left) q heap =
      ground
        (arith, link_rest-at front (i + 1) left q (write (front + i) (link (front + i + 1)) heap))

  pub Chain-range :
      (heap : ℕ → Cell T) (p n : ℕ)
      → ((j : ℕ) → j < n → heap (p + j) ≡ link (p + j + 1))
      → heap (p + n) ≡ link 0
      → Chain heap p (range (p + 1) n)
  unfolding Chain range
  Chain-range heap p zero each last = let e : p ≡ p + 0 = omega arith in ap heap e ∙ last
  Chain-range heap p (suc n) each last =
      let here : p ≡ p + 0 = omega arith in
      let first : p + 0 + 1 ≡ p + 1 = omega arith in
      let end : p + 1 + n ≡ p + suc n = omega arith in
      (
        ap heap here ∙ each 0 (omega arith) ∙ ap link first,
        omega arith,
        Chain-range heap (p + 1) n
            (λ j lt.
              let there : p + 1 + j ≡ p + suc j = omega arith in
              rw there (each (suc j) (omega arith)))
            (ap heap end ∙ last),
      )
