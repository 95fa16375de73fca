-- ===== src/CameraWorker/Images.antt =====
-- Which of the two streams of a camera plates are looked for in, and which is the evidence.
use lpr_refactored.Prelude.{◌≡◌, true, false, ◌&&◌, arith, if◌then◌else◌}
use lpr_refactored.CameraWorker.{Vision, Config, resolve}

module _ (V : Vision) where
  -- With both streams there, plates are looked for in the colour stream when that is asked for.
  abbrev pub of_pair : Config → V.Image → V.Image → V.Image × V.Image
  of_pair cfg frame mono =
      let (detect, evidence) : V.Image × V.Image =
        if cfg.detect_on_secondary then (mono, frame) else (frame, mono) in
      (if cfg.detect_on_color then evidence else detect, evidence)

  -- What becomes of a frame by which of its streams are there.
  pub record Degrades (cfg : Config) (frame mono : V.Image) : Type 0 where
    pub pair :
        V.is_empty frame ≡ false
        → V.is_empty mono ≡ false
        → resolve V cfg frame mono ≡ of_pair cfg frame mono
    pub alone :
        V.is_empty frame ≡ false
        → V.is_empty mono ≡ true
        → resolve V cfg frame mono ≡ (frame, frame)
    pub survives :
        V.is_empty frame ≡ true → V.is_empty mono ≡ false → resolve V cfg frame mono ≡ (mono, mono)
    pub usable : V.is_empty (resolve V cfg frame mono).0 ≡ (V.is_empty frame && V.is_empty mono)

  -- The detection image and the evidence of a frame whose streams are both there are the two, or
  -- the evidence twice under the switch to colour; when one stream is down, the other serves as
  -- both; and only when both are down is there nothing to look at.
  pub resolve-Degrades : (cfg : Config) (frame mono : V.Image) → Degrades cfg frame mono
  unfolding resolve
  resolve-Degrades cfg frame mono = record {
    pair = λ f m. ground (arith, f, m);
    alone = λ f m. ground (arith, f, m);
    survives = λ f m. ground (arith, f, m);
    usable = ground arith;
  }
