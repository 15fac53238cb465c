-- ===== src/Storage/MessageCache/Examples.antt =====
-- A cache over files of which each holds one text.
use chatdesktop.Prelude.{
  pos, String, true, Option, none, some, List, [], ◌∷◌, str_eq, if◌then◌else◌,
}
use chatdesktop.Storage.MessageCache.{StorageApi}
use chatdesktop.Storage.MessageCache.Bounded.{IsBounded}
use chatdesktop.Storage.MessageCache.History.{
  Op, saves_page, reads_page, clears, run, run-IsBounded,
}

abbrev api : StorageApi
api = record {
  Disk = String → Option String;
  Handle = String;
  exists = λ d p. true;
  make_directory = λ d. (true, d);
  file_path = λ name key. name;
  page_root = λ p. "1";
  open_file = λ p d. (some p, d);
  root = λ h r. none;
  ids = λ h. 1 ∷ [];
  set_root = λ r id s. (some true, s);
  insert = λ text s. (some 1, (s.0, λ p. if str_eq p s.0 then some text else s.1 p));
  update = λ id text s. (some true, s);
  get = λ id s. (some (s.1 s.0), s);
  remove = λ id s. (some true, (s.0, λ p. if str_eq p s.0 then none else s.1 p));
  sync = λ s. (some true, s);
}

abbrev ops : List (Op api)
ops =
    saves_page "hello" "bob" "k" (pos 1)
    ∷ (saves_page "hi" "eve" "k" (pos 1) ∷ (reads_page "bob" "k" (pos 1) ∷ (clears "eve" "k" ∷ [])))

run-IsBounded_example :
    IsBounded api (run api ops (record { opened = []; disk = λ p. none })).opened
run-IsBounded_example = run-IsBounded api ops (λ p. none)
