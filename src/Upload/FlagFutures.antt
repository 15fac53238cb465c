-- ===== src/Upload/FlagFutures.antt =====
-- Futures for examples: a finished and a cancelled flag.
use chatdesktop.Prelude.{refl, Bool, true, false}
use chatdesktop.Upload.Cancellation.{FutureApi, Futures}

abbrev pub api : FutureApi
api = record {
  Future = Bool × Bool;
  is_finished = λ f. f.0;
  is_canceled = λ f. f.1;
  cancel = λ f. (f.0, true);
  cancel-is_canceled = λ f h. refl;
  cancel_keeps = λ f h. refl;
}

abbrev pub futures : Futures api
futures i = (false, false)
