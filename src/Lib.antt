-- ===== src/Lib.antt =====
-- benchFFT, a benchmark of fast Fourier transforms written in C. Its own library, libbench/, parses a
-- description of a transform, allocates its arrays, hands them to one of the measured libraries
-- (benchees/*/doit.c), times it, checks its results, and reports.
--
-- The parts modelled, and the files that model them:
--
--   libbench/pow2.c, log2.c, prime.c   Numeric: `power_of_two`, `log_2`, `check_prime_factors`
--   libbench/problem.c, bench-user.h   Problem: `struct problem` as the record `Problem`, and
--                                      `problem_parse`
--   libbench/allocate.c, deallocate.c, util.c, and problem_destroy
--                                      Problem/Storage: the blocks of a problem in a heap
--   libbench/util.c under BENCH_DEBUG  Debug: the allocator with guard bytes
--   libbench/report.c                  Report: `mkstat`
--   libbench/mp.c                      Mp: the type `N` as the record `Number`, and `pack`, `abscmp`,
--                                      `eq`, `addmag0`, `submag0`, `add`, `sub`, `mul`, `neg`,
--                                      `fromshort`; Mp/Bluestein: `pow2_atleast`, `swapri` and the
--                                      exponents of `bluestein_sequence`; Mp/Cache: the blocks that
--                                      `bluestein` keeps; Mp/Fft: `cmul`, `cmulj`, `cexp_builtin`,
--                                      `bitrev`, `fft0`, `bluestein` and `fft1`
--
--   libbench/verify.c                  Verify: `cerror`, `acmp`, `arol`, `aphase_shift` and the run of one
--                                      transform; Verify/Symmetry: `mkhermitian`; Verify/Trials: the
--                                      tests `linear`, `impulse` and `tf_shift`; Verify/Run: `verify`,
--                                      `accuracy` and what they call
--
--   libbench/timer.c, speed.c          Timer: the calibration, over a clock that gives the time of each
--                                      reading; Timer/Speed: the measuring loop of `speed`
--
--   libbench/zero.c, aset.c, acopy.c, ascale.c, caset.c, cacopy.c, cascale.c, caadd.c, casub.c,
--   copy-ri2c.c, copy-c2ri.c, copy-c2r*.c, copy-r2c*.c, copy-c2c-*.c, ccopy-*.c, accopy-*.c,
--   unnormalize.c                      Arrays: the routines on arrays, over a memory with addresses;
--                                      Arrays/Rows has those that skip padding
--   libbench/copy-c2h-1d-*.c, copy-h2c-1d-*.c
--                                      Hermitian: the formats halfcomplex, fftpack, packed and
--                                      unpacked_ri; what a format promises is in
--                                      Hermitian/Spec
--
-- What the tests ask of a driver is an interface: Verify/Transform says what it is for the hooks of a
-- driver to compute a function and for the function to be a Fourier transform. The theorems on the tests
-- take these as hypotheses; Verify/Transform/Hooks shows them of a driver with the default hooks, and
-- Verify/Tests of the transform of two points over the integers. Verify/Trials/Slots is the abstract
-- state of a test, a table of seven arrays, and its children show that the array routines refine the
-- operations on the table.
--
-- Each C function has the definition of its name. Base holds what they share: tests on numbers, integers
-- over the native numbers, counted loops and what they store, outcomes of a call, and lists. The
-- operations on floating-point numbers are a parameter, the record `Real` of Base/Real. A theorem that
-- needs a law of theirs has it as a hypothesis: that -1 or 1, as a factor, undoes itself, or that `<`
-- is strict and transitive, both of which hold for floats. The theorems on the tests of verify.c are
-- about exact arithmetic, in which a number less itself is zero, and so is zero divided by a number.
-- What the code uses of <math.h> is the record `Libm`. Base/Exact fills the record `Real` with the
-- integers, for tests.
--
-- How the parts meet: the description parser fills the record that Problem/Storage, Arrays and Hermitian
-- read; Arrays and Hermitian share one memory, in which an array is an address; the predicates of a
-- problem use Numeric. A driver of a measured library stands between the two copies of a format.
--
-- Numbers. Every unsigned operation that can wrap is written with its `% 2 ^ w`: 32 bits for an
-- `unsigned int`, 64 for the accumulator `ACC` of mp.c, 16 for a `short`. An `int` that overflows ends
-- the call with the outcome `overflow`. Freeing what is not allocated is the outcome
-- `invalid_free`, and a failed BENCH_ASSERT is `assertion_failed` (`none` in Numeric.Prime, which has no
-- other error).
--
-- Fuel. The loop of `log_2` has 33 rounds, and so has each loop that divides out a prime, since every
-- round at least halves an unsigned int. The parser's loop over sizes has one round more than there are
-- characters left, and each round reads at least one. The loops of `pow2_atleast` and `fft0` that
-- double a number have 32 rounds, and so has the counter of `bitrev`; the one
-- that reduces `ksq` as many as `ksq` says. `calibrate` has 21 rounds, one for each doubling of a
-- microsecond up to a second. The theorems say that the fuel does not run out. The loop of `speed` may
-- start over for ever, so that its fuel is an argument; the theorem says how much is enough when the
-- world settles. All other loops are structural recursion on the array or the counter.
--
-- Not modelled: the calls of `speed` around its loop, the printing of reports, the option loop of the
-- driver, the conversions of mp.c to and from floating point with the sines, `compare` and
-- `fftaccuracy`, and the unpacked Hermitian format of several dimensions. Also left
-- out: libbench/getopt*.c and tools/menuconfig, copies of other projects; the transforms under
-- benchees, which are by other authors; fpe.c, which only sets processor flags.
mod Base
pub mod Numeric
pub mod Problem
pub mod Mp
pub mod Arrays
pub mod Hermitian
pub mod Report
pub mod Debug
pub mod Verify
pub mod Timer
