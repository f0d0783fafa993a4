-- ===== src/Control/Filters.antt =====
-- The filters over the latest inputs: includes/eeros/control/filter/MovingAverageFilter.hpp and
-- includes/eeros/control/filter/MedianFilter.hpp.
pub mod Window
pub mod MovingAverage
pub mod Median
mod Examples
