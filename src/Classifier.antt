-- ===== src/Classifier.antt =====
-- src/idr/classifier: the classifier of bid requests.
pub mod Ortb
pub mod Extract
pub mod Ids
pub mod Classify
pub mod Laws
pub mod Domain
pub mod Consent
mod Tests
