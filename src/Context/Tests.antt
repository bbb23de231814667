-- ===== src/Context/Tests.antt =====
-- Two packets of one stream and one of another.
use deplug.Common.{ℕ, ◌≡◌, refl, Option, none, some, List, [], ◌∷◌, map}
use deplug.Variant.{Variant, from_address}
use deplug.Context.{Key, Context, add_layer_linkage}
use deplug.Context.Calls.{run, IsList, run-IsList}

abbrev empty_context : Context ℕ
empty_context = record { attrs = []; layer_attrs = λ l. []; linked_layers = [] }

abbrev tcp : Key
tcp = record { token = 6; id = 1 }

abbrev udp : Key
udp = record { token = 17; id = 1 }

abbrev calls : List (Key × ℕ)
calls = (tcp, 40) ∷ (udp, 41) ∷ (tcp, 42) ∷ []

abbrev values : Context ℕ → List (Variant ℕ (Option ℕ))
values ctx = map (λ a. a.value) ctx.attrs

linked :
    values (run 8 9 calls (empty_context, [])).0
    ≡ from_address (some 42) ∷ from_address none ∷ from_address (some 40) ∷ from_address none ∷ []
unfolding run add_layer_linkage from_address
linked = refl

run-IsList_example : IsList 8 9 (run 8 9 calls (empty_context, []))
run-IsList_example = run-IsList 8 9 calls empty_context refl
