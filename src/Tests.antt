-- ===== src/Tests.antt =====
-- Runs of the model at concrete inputs, and the theorems applied at inputs that meet their hypotheses.
mod BitmapTests
mod SuperTests
mod BlockMapTests
mod ItableTests
mod DirTests
mod ListingTests
mod PointsTests
mod ThreadsTests
mod WebserverTests
mod WordsTests
mod RioTests
