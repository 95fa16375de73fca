-- ===== src/GigE/Tests.antt =====
-- Three cameras on two interfaces; rates over the natural numbers.
use lpr_refactored.Prelude.{ℕ, ◌+◌, ◌-◌, ◌*◌, ◌/◌, true, false, List, [], ◌∷◌, ltb, codes}
use lpr_refactored.Floats.{Float, ltb_irrefl, ltb_asymm, not_ltb_trans}
use lpr_refactored.GigE.{Entry, Call, register}
use lpr_refactored.GigE.Rate.{AdaptConfig, Adapt, Grab, bad_frame}

abbrev calls : List Call
calls =
    register (codes "a") (codes "n")
    ∷ register (codes "b") (codes "n")
    ∷ register (codes "c") (codes "m")
    ∷ register (codes "c") (codes "n")
    ∷ []

abbrev entry : ℕ → Entry
entry i = record { nic_group = codes "n"; index = i }

-- Rates in thousandths of a frame a second; a step down is a quarter, a step up a fifth.
abbrev rates : Float
rates = record {
  Num = ℕ;
  lt = ltb;
  add = ◌+◌;
  sub = ◌-◌;
  mul = λ x f. x * f / 100;
  div = ◌/◌;
  ratio = ◌/◌;
  lt_irrefl = ltb_irrefl;
  lt_asymm = ltb_asymm;
  not_lt_trans = not_ltb_trans;
}

abbrev adapt_config : AdaptConfig rates
adapt_config = record {
  down_pct = 2;
  up_pct = 0;
  down_f = 75;
  up_f = 120;
  min_fps = 1000;
  recover_ms = 15000;
}

abbrev fresh : Adapt rates
fresh = record {
  inited = false;
  skip = false;
  cur = 0;
  ceil = 0;
  grabs = 0;
  bad = 0;
  last_step = 0;
}

abbrev lossy : Grab rates
lossy = record {
  frame_rate = 4000;
  triggered = false;
  status = bad_frame;
  now = 20000;
  accepts = true;
}
