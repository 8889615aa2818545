-- ===== src/Hermitian/Fftpack/Format.antt =====
-- What the two copies of the fftpack format do.
use bench_fft.Base.{refl}
use bench_fft.Base.Real.{Real}
use bench_fft.Hermitian.{size_1d, copy_c2h_1d_fftpack, copy_h2c_1d_fftpack}
use bench_fft.Hermitian.Spec.{IsFormat, ran}
use bench_fft.Hermitian.Fftpack.{fftpack}
use bench_fft.Hermitian.Fftpack.Gather.{to_fftpack-IsHalf}
use bench_fft.Hermitian.Fftpack.Spread.{of_fftpack-IsWhole}

pub fftpack-IsFormat :
    {R : Type 0} ⦃r : Real R⦄ → IsFormat {R = R} fftpack copy_c2h_1d_fftpack copy_h2c_1d_fftpack
unfolding copy_c2h_1d_fftpack copy_h2c_1d_fftpack
fftpack-IsFormat = record {
  keeps = λ p input sign mem d.
      (_, ran d _, refl, to_fftpack-IsHalf (size_1d p) sign d.held _ p.input mem.reals);
  reads = λ p out sign mem unit d.
      (_, ran d _, refl, of_fftpack-IsWhole (size_1d p) sign d.held _ out mem.complexes);
}
