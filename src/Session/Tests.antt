-- ===== src/Session/Tests.antt =====
-- A session with two events, the second of which is put while the handler runs.
use deplug.Common.{ℕ, ◌≡◌, refl, ◌==◌, List, [], ◌∷◌, ◌++◌, ==_iff}
use deplug.Session.{set_display_filter, get_filtered_frames}
use deplug.Session.Turns.{Op, puts, announces, wakes, continues, run, start, handled}
use deplug.Session.Delivery.{run-in_order}
use deplug.Session.Quiescence.{run-delivered}
use deplug.Session.Filters.{set_display_filter-get_filtered_frames}

abbrev steps : List (Op ℕ)
steps = puts 5 ∷ announces ∷ wakes ∷ continues ∷ continues ∷ puts 6 ∷ announces ∷ []

run-delivered_example : (handled (run steps start)).session.events ≡ (run steps start).put
unfolding run start
run-delivered_example = run-delivered steps refl

run-in_order_example :
    (run steps start).session.events ++ (run steps start).session.event_queue
    ≡ (run steps start).put
run-in_order_example = run-in_order steps

-- Names and bodies are numbers, 0 the empty body; a pool is its body and lists it.
set_display_filter-get_filtered_frames_example :
    get_filtered_frames
      (λ a b. a == b)
      (λ pool offset length. pool ∷ [])
      1
      0
      9
      (set_display_filter (λ a b. a == b) (λ body. body == 0) (λ body. body) 1 7 [])
    ≡ 7 ∷ []
set_display_filter-get_filtered_frames_example =
    set_display_filter-get_filtered_frames (λ a b. a == b) ==_iff (λ body. body == 0) (λ body. body)
      (λ pool offset length. pool ∷ []) 1 7 1 0 9 []
