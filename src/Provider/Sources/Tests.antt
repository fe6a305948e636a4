-- ===== src/Provider/Sources/Tests.antt =====
-- Examples for the factory of data providers.
use nfdecoder.Base.{ℕ, ◌≡◌, refl, arith, true, inr, none, some, [], ◌∷◌}
use nfdecoder.Base.Text.{Text, codes}
use nfdecoder.Factory.{call}
use nfdecoder.Factory.Once.{Once, call-Once}
use nfdecoder.Provider.Sources.{
  Creators, Creator, Services, add_data_provider_creator, remove_data_provider_creator,
  first_created, wants_resolving, create_data_provider,
}
use nfdecoder.Provider.Sources.Registry.{IsRegistry, remove-add}
use nfdecoder.Provider.Sources.Dispatch.{IsDirect, IsServed, resolved, create_data_provider-Once}

abbrev never : Creator ℕ
never path = none

abbrev always : Creator ℕ
always path = some 7

abbrev two : Creators ℕ
two = record { functions = (0, never) ∷ (3, never) ∷ []; count = 5 }

valid : IsRegistry ℕ two
unfolding IsRegistry
valid = (omega arith, (omega arith, tt))

remove-add_example :
    IsRegistry ℕ (add_data_provider_creator ℕ two always).1
    × ((remove_data_provider_creator ℕ
          (add_data_provider_creator ℕ two always).1
          (add_data_provider_creator ℕ two always).0).functions
        ≡ two.functions)
    × ((path : Text)
        → first_created ℕ two.functions path ≡ none
        → first_created ℕ (add_data_provider_creator ℕ two always).1.functions path ≡ always path)
    × ((path : Text) (c : ℕ)
        → first_created ℕ two.functions path ≡ some c
        → first_created ℕ (add_data_provider_creator ℕ two always).1.functions path ≡ some c)
remove-add_example = remove-add ℕ two always valid

abbrev services : Services ℕ
services = record {
  resolve = λ url. record { status = 200; body = [] };
  stream_url = λ body. some (codes "https://a/stream");
  load = λ s. call true;
  alive = true;
}

is_served : IsServed ℕ services [] (codes "https://soundcloud.com/a")
unfolding first_created wants_resolving IsDirect
is_served =
    resolved (codes "https://soundcloud.com/a") (codes "https://a/stream") refl refl refl refl
      (inr refl)

create_data_provider-Once_example :
    Once (create_data_provider ℕ services [] 2 (codes "https://soundcloud.com/a"))
create_data_provider-Once_example =
    create_data_provider-Once ℕ services [] (codes "https://soundcloud.com/a") 0
      (λ s. call-Once true) is_served
