-- ===== src/Pipeline/Tests.antt =====
-- A run of svc/frame_pipeline.c: two slots and two sinks, with one frame published.
use stm32f746g_disco.Prelude.{
  ℕ, ◌+◌, ◌*◌, ◌<◌, ◌≡◌, refl, ◌≢◌, false, none, some, List, [], arith, ◌==◌, if◌then◌else◌,
}
use stm32f746g_disco.Pipeline.{
  Sink, keep_latest, drop_frame, rgb565, Pipeline, Frame, stamp, frame_pipeline_init,
  frame_pipeline_acquire, frame_pipeline_publish, attach_locked, frame_pipeline_read_latest, unlink,
}
use stm32f746g_disco.Pipeline.Pins.{Pin, pinned, owned}
use stm32f746g_disco.Pipeline.Invariant.{IsExact}
use stm32f746g_disco.Pipeline.FanOut.{pins_after}
use stm32f746g_disco.Pipeline.Protocol.{attach, acquire, publish}
use stm32f746g_disco.Pipeline.Protocol.Safety.{
  Run, start, then_step, Unused, Run-IsExact, acquired-is_unshared, read_latest-in_bounds,
}

abbrev idle : ℕ → Sink
idle k = record {
  policy = if k == 0 then keep_latest else drop_frame;
  pending = none;
  busy = false;
  pins = 0;
  delivered = 0;
  dropped = 0;
  errors = 0;
}

idle-Unused : Unused idle
idle-Unused k = (refl, refl)

abbrev fresh : Pipeline
fresh = record {
  slots = λ i. record {
    address = 100 + i * 50;
    filling = false;
    refcount = 0;
    bytes = 0;
    gen = 0;
    format = rgb565;
    width = 0;
    height = 0;
    stride = 0;
  };
  nslots = 2;
  slot_size = 50;
  latest = none;
  gen = 0;
  format = rgb565;
  width = 0;
  height = 0;
  captured = 0;
  published = 0;
  overruns = 0;
  attached = [];
  sinks = idle;
}

fresh-init : frame_pipeline_init 100 50 2 idle ≡ some fresh
unfolding frame_pipeline_init
fresh-init = refl

abbrev frame : Frame
frame = record { bytes = 40; format = rgb565; width = 5; height = 4; stride = 10 }

abbrev with_sink : Pipeline
with_sink = attach_locked 0 fresh

abbrev acquired : Pipeline
acquired = (frame_pipeline_acquire with_sink).0

abbrev published : Pipeline
published = (frame_pipeline_publish 0 frame acquired).0

abbrev pins : List Pin
pins = pins_after acquired.attached 0 (stamp 0 frame acquired) []

run_acquired : Run fresh [] acquired []
run_acquired =
    then_step
      (then_step (start fresh [])
        (attach fresh [] 0 (unfold unlink in refl) (unfold owned in refl)))
      (acquire with_sink [])

run_published : Run fresh [] published pins
unfolding frame_pipeline_acquire
run_published = then_step run_acquired (publish acquired [] 0 frame refl)

Run-IsExact_example : IsExact published pins
Run-IsExact_example = Run-IsExact 100 50 2 idle idle-Unused fresh-init run_published

acquired-is_unshared_example :
    (pinned 1 pins ≡ 0)
    × ((published.latest ≢ some 1)
        × (((published.slots 1).filling ≡ false) × (1 < published.nslots)))
unfolding frame_pipeline_acquire frame_pipeline_publish
acquired-is_unshared_example =
    acquired-is_unshared 100 50 2 idle {f = 1} idle-Unused fresh-init run_published refl

read_latest-in_bounds_example :
    frame_pipeline_read_latest 10 8 published ≡ some (record { from = 110; len = 8; gen = 1 })
unfolding frame_pipeline_acquire frame_pipeline_publish
read_latest-in_bounds_example = read_latest-in_bounds 10 8 0 published refl (omega arith)
