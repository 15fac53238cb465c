-- ===== src/Storage/MessageCache/History.antt =====
-- The open stores after any history of the cache.
use chatdesktop.Prelude.{ℤ, pos, lt, String, Bool, false, not, Option, none, List, [], ◌∷◌, if_elim}
use chatdesktop.Storage.MessageCache.{
  StorageApi, Cache, with_store, in_directory, save, save_batch, save_root, save_snapshot,
  save_page, save_pending, read_snapshot, read_page, read_pending, read, read_root, read_batches,
  remove_all, clear, close_all,
}
use chatdesktop.Storage.MessageCache.Bounded.{IsBounded, none_open, with_store-IsBounded}

module _ (api : StorageApi) where
  -- The operations of the class, and what others do to the files.
  pub data Op : Type 0 where
    saves : String → String → String → Op
    saves_page : String → String → String → ℤ → Op
    saves_pending : String → String → String → Op
    reads : String → String → Op
    reads_page : String → String → ℤ → Op
    reads_pending : String → String → Op
    clears : String → String → Op
    closes_all : Op
    changes : api.Disk → Op

  unfoldable pub step : Op → Cache api → Cache api
  step (saves text name key) c = (save api text name key c).1
  step (saves_page text name key page) c = (save_page api text name key page c).1
  step (saves_pending text name key) c = (save_pending api text name key c).1
  step (reads name key) c = (read api name key c).1
  step (reads_page name key page) c = (read_page api name key page c).1
  step (reads_pending name key) c = (read_pending api name key c).1
  step (clears name key) c = (clear api name key c).1
  step closes_all c = close_all api c
  step (changes d) c = record c { disk = d }

  unfoldable pub run : List Op → Cache api → Cache api
  run [] c = c
  run (o ∷ os) c = run os (step o c)

  in_directory-IsBounded :
      (f : Cache api → Bool × Cache api) (c : Cache api)
      → ((there : Cache api) → IsBounded api there.opened → IsBounded api (f there).1.opened)
      → IsBounded api c.opened
      → IsBounded api (in_directory api f c).1.opened
  unfolding in_directory
  in_directory-IsBounded f c g h =
      let made = api.make_directory c.disk in
      if_elim (λ (r : Bool × Cache api). IsBounded api r.1.opened) (not made.0) (λ e. h)
        (λ e. g (record c { disk = made.1 }) h)

  save_snapshot-IsBounded :
      (text name key r : String) (c : Cache api)
      → IsBounded api c.opened
      → IsBounded api (save_snapshot api text name key r c).1.opened
  unfolding save_snapshot
  save_snapshot-IsBounded text name key r c h =
      in_directory-IsBounded
        (with_store api false (λ s. save_root api text r (api.root s.0 r) s)
          (api.file_path name key))
        c
        (λ there k.
          with_store-IsBounded api false (λ s. save_root api text r (api.root s.0 r) s)
            (api.file_path name key) there k)
        h

  read_snapshot-IsBounded :
      (name key r : String) (c : Cache api)
      → IsBounded api c.opened
      → IsBounded api (read_snapshot api name key r c).1.opened
  unfolding read_snapshot
  read_snapshot-IsBounded name key r c h =
      if_elim (λ (s : Option String × Cache api). IsBounded api s.1.opened)
        (not (api.exists c.disk (api.file_path name key))) (λ e. h)
        (λ e.
          with_store-IsBounded api none (λ s. read_root api (api.root s.0 r) s)
            (api.file_path name key) c h)

  step-IsBounded :
      (o : Op) (c : Cache api) → IsBounded api c.opened → IsBounded api (step o c).opened
  unfolding step save save_page save_pending read read_page read_pending clear close_all
  step-IsBounded (saves text name key) c h =
      in_directory-IsBounded (with_store api false (save_batch api text) (api.file_path name key)) c
        (λ there k.
          with_store-IsBounded api false (save_batch api text) (api.file_path name key) there k)
        h
  step-IsBounded (saves_page text name key page) c h =
      if_elim (λ (r : Bool × Cache api). IsBounded api r.1.opened) (lt page (pos 1)) (λ e. h)
        (λ e. save_snapshot-IsBounded text name key (api.page_root page) c h)
  step-IsBounded (saves_pending text name key) c h =
      save_snapshot-IsBounded text name key "pending-messages" c h
  step-IsBounded (reads name key) c h =
      if_elim (λ (r : Option (List String) × Cache api). IsBounded api r.1.opened)
        (not (api.exists c.disk (api.file_path name key))) (λ e. h)
        (λ e.
          with_store-IsBounded api none (λ s. read_batches api (api.ids s.0) s)
            (api.file_path name key) c h)
  step-IsBounded (reads_page name key page) c h =
      if_elim (λ (r : Option String × Cache api). IsBounded api r.1.opened) (lt page (pos 1))
        (λ e. h) (λ e. read_snapshot-IsBounded name key (api.page_root page) c h)
  step-IsBounded (reads_pending name key) c h =
      read_snapshot-IsBounded name key "pending-messages" c h
  step-IsBounded (clears name key) c h =
      if_elim (λ (r : Bool × Cache api). IsBounded api r.1.opened)
        (not (api.exists c.disk (api.file_path name key))) (λ e. h)
        (λ e.
          with_store-IsBounded api false (λ s. remove_all api (api.ids s.0) s)
            (api.file_path name key) c h)
  step-IsBounded closes_all c h = none_open api
  step-IsBounded (changes d) c h = h

  run-IsBounded_from :
      (os : List Op) (c : Cache api) → IsBounded api c.opened → IsBounded api (run os c).opened
  unfolding run
  run-IsBounded_from [] c h = h
  run-IsBounded_from (o ∷ os) c h = run-IsBounded_from os (step o c) (step-IsBounded o c h)

  -- However the message cache is used, whatever its stores throw and whatever others do to its files,
  -- it never has more than eight stores open and never two of one file.
  pub run-IsBounded :
      (os : List Op) (d : api.Disk)
      → IsBounded api (run os (record { opened = []; disk = d })).opened
  run-IsBounded os d = run-IsBounded_from os (record { opened = []; disk = d }) (none_open api)
