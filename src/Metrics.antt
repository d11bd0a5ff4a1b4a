-- ===== src/Metrics.antt =====
-- Usage metrics: include/unleash/Metrics, src/metricToggle.cpp, metricList.cpp, metricStore.cpp and
-- metricSender.cpp.
pub mod Counters
pub mod MetricList
pub mod MetricsStore
pub mod MetricSender
