-- ===== src/Service/Tests.antt =====
-- The theorem on the launcher at concrete arguments.
use madkv.Prelude.{◌≡◌, refl, [], ◌∷◌, none}
use madkv.Prelude.Results.{done, panic}
use madkv.Text.{codes, is_empty, starts_with, text_eq}
use madkv.Service.{Args, to_lowercase, choose}
use madkv.Service.Launch.{decided, choose-decided}

-- The server's arguments are left out.
abbrev bare : Args
bare = record { node_id = codes "s0"; server_just_args = []; manager_just_args = codes "None" ∷ [] }

bare_panics : choose bare ≡ panic
unfolding choose is_empty starts_with
bare_panics = refl

choose-decided_example :
    choose bare ≡ decided bare.node_id bare.server_just_args bare.manager_just_args
choose-decided_example = choose-decided bare

-- The server is turned off.
abbrev turned_off : Args
turned_off = record bare { server_just_args = codes "NonE" ∷ codes "s" ∷ [] }

turned_off_idle : choose turned_off ≡ done none
unfolding choose is_empty starts_with to_lowercase text_eq
turned_off_idle = refl
