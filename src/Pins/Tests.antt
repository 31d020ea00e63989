-- ===== src/Pins/Tests.antt =====
-- The theorems on pins at inputs of their own.
use fusion_on_prem_server.Base.{refl, true, false, some, []}
use fusion_on_prem_server.Nav.State.{Item, NavState, initial_state}
use fusion_on_prem_server.Nav.Url.{hint}
use fusion_on_prem_server.Pins.{is_pinnable, toggle}
use fusion_on_prem_server.Pins.Server.{settled}
use fusion_on_prem_server.Pins.Toggle.{Flips, toggle-Flips}

abbrev bolt : Item
bolt = hint "i1" "Bolt" "design" false

abbrev in_hub : NavState
in_hub = record initial_state {
  hub_id = some "h1";
  project = some (hint "p1" "Frame" "project" true);
}

toggle-Flips_example : Flips (settled (toggle in_hub (some []) bolt) []) [] "i1"
unfolding is_pinnable
toggle-Flips_example = toggle-Flips in_hub bolt [] refl refl refl
