-- ===== src/Templates/Curated.antt =====
-- The curated list of include/FeTemplates.h, which the catalogue falls back to.
use cppadmin.Base.{Bytes, bytes, String, List, [], ◌∷◌, ◌++◌}
use cppadmin.Templates.Slug.{Item}

abbrev item : String → Bytes → String → Item
item slug name category = record { slug = bytes slug; name = name; category = bytes category }

-- The em dash in UTF-8, between two blanks.
abbrev saas : String → Bytes
saas s = bytes "SaaS " ++ (226 ∷ 128 ∷ 148 ∷ bytes s)

unfoldable pub curated : List Item
curated =
    item "agency-consulting-002-creative-agency" (bytes "Creative Agency") "Agency"
    ∷ item "agency-consulting-001-digital-marketing-agency" (bytes "Digital Marketing Agency")
        "Agency"
    ∷ item "technology-saas-001-hero-focused-conversion-page" (saas " Hero Focused") "Technology"
    ∷ item "technology-saas-002-feature-rich-multi-section" (saas " Feature Rich") "Technology"
    ∷ item "ecommerce-retail-001-fashion-boutique" (bytes "Fashion Boutique") "E-commerce"
    ∷ item "ecommerce-retail-002-luxury-fashion-brand" (bytes "Luxury Fashion") "E-commerce"
    ∷ item "portfolio-creative-001-creative-portfolio" (bytes "Creative Portfolio") "Portfolio"
    ∷ item "portfolio-creative-002-minimal-portfolio" (bytes "Minimal Portfolio") "Portfolio"
    ∷ item "professional-services-001-law-firm" (bytes "Law Firm") "Professional"
    ∷ item "real-estate-property-001-real-estate-agency" (bytes "Real Estate Agency") "Real Estate"
    ∷ item "food-hospitality-001-fine-dining-restaurant" (bytes "Fine Dining") "Food"
    ∷ item "healthcare-wellness-001-family-doctor-clinic" (bytes "Family Clinic") "Healthcare"
    ∷ item "education-training-001-private-school" (bytes "Private School") "Education"
    ∷ item "fitness-sports-001-fitness-center" (bytes "Fitness Center") "Fitness"
    ∷ item "travel-tourism-001-travel-agency" (bytes "Travel Agency") "Travel"
    ∷ []
