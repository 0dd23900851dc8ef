-- ===== src/Tests.antt =====
-- Runs of the definitions at concrete inputs, and the theorems there.
mod BitmapTests
mod PallocTests
mod ThreadTests
mod SynchTests
mod IntqTests
mod FreeMapTests
mod StringsTests
mod ClockTests
mod ShellTests
mod ListTests
mod NumberTests
mod FileTests
mod HashTests
