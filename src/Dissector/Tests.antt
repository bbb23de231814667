-- ===== src/Dissector/Tests.antt =====
-- A dissector for the tag 1 that adds the tag 2 and a child layer, and one for the tag 2.
use deplug.Queue.{Queue}
use deplug.StreamDissector.Levels.{AreBelow}
use deplug.Dissector.Loop.{loop, ends, goes_on}
use deplug.Dissector.Frames.{IsRanked, loop-goes_on}
use deplug.Common.{
  arith, true, false, Bool-cases, inl, inr, Option, none, ◌⊎◌, take, ℕ, ◌≡◌, refl, ◌==◌,
  if◌then◌else◌, List, [], ◌∷◌, ◌++◌, some,
}
use deplug.Dissector.{Calls, enter, rounds}
use deplug.Dissector.Rounds.{Complete, rounds-Complete}

-- The state is the list of the tags of the layer.
abbrev calls : Calls (List ℕ)
calls = record {
  create_worker = λ d tags. tags;
  examine = λ d tags. (3, tags);
  analyze = λ d tags. if d == 0 then tags ++ 2 ∷ [] else tags;
  tags = λ tags. tags;
  children = λ tags. (7, 40) ∷ [];
}

-- Both are used, and the child is listed once for each of them.
both :
    rounds calls 1 (9 ∷ []) (enter ((1 ∷ 0 ∷ []) ∷ (0 ∷ []) ∷ (2 ∷ []) ∷ [])) 3 [] [] (1 ∷ [])
    ≡ some (record { used = 0 ∷ 1 ∷ []; next = 7 ∷ 7 ∷ []; state = 1 ∷ 2 ∷ [] })
unfolding rounds enter
both = refl

rounds-Complete_example :
    Complete calls 1
      (9 ∷ [])
      (enter ((1 ∷ []) ∷ (2 ∷ []) ∷ []))
      (rounds calls 1 (9 ∷ []) (enter ((1 ∷ []) ∷ (2 ∷ []) ∷ [])) 3 [] [] (1 ∷ []))
unfolding enter
rounds-Complete_example =
    rounds-Complete calls 1 (9 ∷ []) (enter ((1 ∷ []) ∷ (2 ∷ []) ∷ [])) (1 ∷ [])

-- Frames are known by their root layers, 0 with a child 1 and 5 without one; frame 2 has none.
abbrev calls_of : ℕ → Calls (List ℕ)
calls_of layer = record calls { children = λ s. if layer == 0 then (1, 8) ∷ [] else [] }

abbrev root_of : ℕ → List ℕ → Option ℕ
root_of frame s = if frame == 2 then none else some frame

abbrev rank : ℕ → ℕ
rank layer = if layer == 0 then 1 else 0

calls_of-IsRanked : IsRanked calls_of rank
unfolding AreBelow
calls_of-IsRanked layer s = elim (Bool-cases (layer == 0)) [
  | inl e ↦ rw e (omega arith, tt)
  | inr e ↦ rw e tt
]

abbrev queue : Queue ℕ
queue = record { buf = 0 ∷ 2 ∷ 5 ∷ []; closed = false; count = 3 }

loop-goes_on_example :
    ((queue.closed ≡ true)
      × (loop calls_of (λ layer s. layer) root_of 1 (enter ((1 ∷ []) ∷ [])) 2 queue (1 ∷ [])
          ≡ some ends))
    ⊎ ((queue.closed ≡ false)
        × (rest : Queue ℕ) × (after : List ℕ) × (loop calls_of
              (λ layer s. layer)
              root_of
              1
              (enter ((1 ∷ []) ∷ []))
              2
              queue
              (1 ∷ [])
            ≡ some (goes_on (take 128 queue.buf) rest after))
        × (take 128 queue.buf ++ rest.buf ≡ queue.buf))
loop-goes_on_example =
    loop-goes_on calls_of (λ layer s. layer) root_of 1 (enter ((1 ∷ []) ∷ [])) rank
      calls_of-IsRanked 2 queue (1 ∷ []) (λ layer. ground arith)
