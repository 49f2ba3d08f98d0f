-- ===== src/Public.antt =====
-- apps/web/src/pages/HistoryPage.tsx, StatusCategoryPage.tsx and StatusPage.tsx, and
-- components/IncidentCarouselGroup.tsx: what the public pages compute.
pub mod History
pub mod Category
pub mod Carousel
pub mod Status
