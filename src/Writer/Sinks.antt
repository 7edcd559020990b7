-- ===== src/Writer/Sinks.antt =====
-- What `WriterThread::Loop` (plugin/src/transport/writer_thread.cpp) does with a record: the
-- broadcast to the viewers and the copy for the recorder. Before the n-th record the thread of the
-- pipe server makes `rounds n` rounds, and `clock n` are the clocks of the recorder at it.
use skygraph.Prelude.{ℕ, zero, suc, Bool, Option, none, some}
use skygraph.Framing.{Text}
use skygraph.Pipe.{PipeServer, broadcast, writer_round}
use skygraph.Recorder.{RollingRecorder, Files, append}

pub record Sinks (H P W : Type 0) : Type 0 where
  pub pipe : PipeServer H
  pub recorder : Option (RollingRecorder P W)
  pub taken : ℕ

module _ {H : Type 0} (write_file : H → Text → Bool × ℕ × H) (cancel : H → H) where
  unfoldable pub make_rounds : ℕ → PipeServer H → PipeServer H
  unfolding writer_round
  make_rounds zero s = s
  make_rounds (suc n) s = make_rounds n (writer_round write_file cancel s).1

module _ {P W : Type 0} (fs : Files P W) (clock : ℕ → ℕ × ℕ) where
  unfoldable pub record_copy :
      Option (RollingRecorder P W) → Text → ℕ → Option (RollingRecorder P W)
  unfolding append
  record_copy none r n = none
  record_copy (some recorder) r n = some (append fs recorder r (clock n).0 (clock n).1)

module _ {H P W : Type 0} (write_file : H → Text → Bool × ℕ × H) (cancel : H → H) (fs : Files P W)
    (rounds : ℕ → ℕ) (clock : ℕ → ℕ × ℕ) where
  unfoldable pub deliver : Sinks H P W → Text → Sinks H P W
  unfolding broadcast make_rounds record_copy
  deliver s r = record {
    pipe = broadcast (make_rounds write_file cancel (rounds s.taken) s.pipe) r;
    recorder = record_copy fs clock s.recorder r s.taken;
    taken = suc s.taken;
  }
