-- ===== src/Examples/Settings.antt =====
-- Settings that are read and written by keys with dots: crates/ruflo-cli/src/config_file.rs.
use ruflo_rust.Prelude.{
  ◌≡◌, refl, true, none, some, [], ◌∷◌, ok, err, arith, split, ◌^◌, false, any, ◌||◌, string_eq,
  ◌==◌, String,
}
use ruflo_rust.Json.{Value, null, bool, num, pos_int, str, object, array}
use ruflo_rust.Settings.{
  Files, Env, refused, panicked, find, load, get, get_parts, child_of, set, set_nested, put_child,
  write_atomic, parse_usize, Place,
}
use ruflo_rust.Settings.Keys.{Sets, set-get, Clear}
use ruflo_rust.Settings.Providers.{
  changed, providers, change_all, add_provider, remove_provider, switch_provider, new_provider,
}
use ruflo_rust.Settings.Providers.Names.{Changes, providers-IsUnique}

abbrev defaults : Value
defaults = object (
    ("swarm", object (("topology", str "hierarchical") ∷ ("maxAgents", num (pos_int 8)) ∷ [])) ∷ [])

abbrev no_files : Files
no_files = record { primary_file = none; secondary_file = none; outside_file = none }

-- serde_json reads integers and strings back as they were written.
abbrev env : Env
env = record { fault = none; capacity = 2 ^ 58; reread = λ v. some v }

abbrev agents_key : String
agents_key = "swarm.maxAgents"

set-get_example :
    ((agents_key == "" || any (λ part. part == "") (split 46 agents_key)) ≡ false
      → env.fault ≡ none
      → Clear (split 46 agents_key) (load defaults no_files)
      → (place : Place) × ((set defaults env agents_key (num (pos_int 20)) no_files).0 ≡ ok place))
    × Sets defaults env agents_key
        (num (pos_int 20))
        no_files
        (set defaults env agents_key (num (pos_int 20)) no_files)
set-get_example = set-get defaults env agents_key (num (pos_int 20)) no_files

abbrev after_set : Files
after_set = (set defaults env "swarm.maxAgents" (num (pos_int 20)) no_files).1

reads_twenty : get (load defaults after_set) "swarm.maxAgents" ≡ some (num (pos_int 20))
unfolding set load find write_atomic set_nested put_child child_of get get_parts split
reads_twenty = refl

other_kept : get (load defaults after_set) "swarm.topology" ≡ some (str "hierarchical")
unfolding set load find write_atomic set_nested put_child child_of get get_parts split
other_kept = refl

grows :
    set_nested 10 ("2" ∷ "x" ∷ []) (bool true) (array [])
    ≡ ok (array (null ∷ null ∷ object (("x", bool true) ∷ []) ∷ []))
unfolding set_nested put_child child_of parse_usize
grows = refl

too_long : set_nested 10 ("18446744073709551615" ∷ []) (bool true) (array []) ≡ err panicked
unfolding set_nested put_child parse_usize
too_long = refl

no_index :
    set_nested 10 ("a" ∷ []) (bool true) (array []) ≡ err (refused "array key must be an index")
unfolding set_nested put_child parse_usize
no_index = refl

providers-IsUnique_example :
    Changes defaults env no_files true
      (providers defaults env (some "ollama") none none (some "ollama") no_files)
unfolding load find
providers-IsUnique_example =
    providers-IsUnique defaults env (some "ollama") none none (some "ollama") no_files
      (λ name. omega arith)

added :
    (providers defaults env (some "ollama") none none none no_files).0
    ≡ changed (record {
      providers = new_provider "ollama" 1 ∷ [];
      messages = "Added provider: ollama" ∷ [];
      failure = none;
    })
unfolding providers change_all add_provider remove_provider switch_provider set load find
    write_atomic set_nested put_child child_of split
added = refl
