-- ===== src/Tests/Start.antt =====
-- The start of the process with concrete settings.
use matchmaker_platform.Prelude.{◌≡◌, refl, true, false, not, none, some, [], ◌∷◌}
use matchmaker_platform.Text.{Text, codes, split, split_head, split_tail}
use matchmaker_platform.SessionManager.{same_text, init_server_allocator}
use matchmaker_platform.Startup.{
  Config, one_of, is_development, get_settings, stripped, cors_origins, is_wildcard, create_app,
  connect_nats, can_subscribe, start_match_consumer, Answers, Running, lifespan, start,
}
use matchmaker_platform.Startup.Guards.{IsGuarded, start-IsGuarded}

-- Texts that are in lower case and without blanks at their ends.
abbrev as_it_is : Text → Text
as_it_is t = t

abbrev production : Config
production = record {
  environment = codes "prod";
  cors_allowed_origins = codes "*,https://a.example";
  jwt_secret_key = codes "secret";
  rate_limit_enabled = true;
}

abbrev all_answer : Answers
all_answer = record { database = true; redis = true; nats = true; subscription = true }

abbrev running : Running
running = record {
  app = record {
    allow_origins = codes "*" ∷ codes "https://a.example" ∷ [];
    allow_credentials = true;
    rate_limited = true;
  };
  redis = true;
  nats = true;
  nats_client = record { client = some true };
  consuming = false;
  session_secret = codes "secret";
  allocator = init_server_allocator (codes "game.example.com") 7777;
}

-- In production a list of origins with `*` and another one is accepted, with credentials.
wildcard_in_list : start as_it_is as_it_is production all_answer ≡ some running
unfolding start get_settings is_development one_of same_text create_app cors_origins stripped split
    split_head split_tail is_wildcard lifespan connect_nats start_match_consumer can_subscribe
wildcard_in_list = refl

-- The wildcard alone, and the default secret, are refused there.
refused_settings :
    (start as_it_is as_it_is (record production { cors_allowed_origins = codes "*" }) all_answer
      ≡ none)
    × (start as_it_is as_it_is
          (record production { jwt_secret_key = codes "your-secret-key-change-in-production" })
          all_answer
        ≡ none)
unfolding start get_settings is_development one_of same_text create_app cors_origins stripped split
    split_head split_tail is_wildcard
refused_settings = (refl, refl)

start-IsGuarded_example :
    IsGuarded as_it_is as_it_is production
    × (all_answer.database ≡ true)
    × (running.session_secret ≡ production.jwt_secret_key)
    × (running.app.allow_origins ≡ cors_origins as_it_is production)
    × (running.app.allow_credentials ≡ not (is_wildcard running.app.allow_origins))
    × (running.nats ≡ all_answer.nats)
    × (running.consuming ≡ false)
start-IsGuarded_example =
    start-IsGuarded as_it_is as_it_is production all_answer running wildcard_in_list
